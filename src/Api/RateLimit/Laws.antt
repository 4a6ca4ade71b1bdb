-- ===== src/Api/RateLimit/Laws.antt =====
-- A failed login counts for its source, and locks it out once the recent failures reach the limit.
use astropath_dns_relay.Prelude.{
  ℕ, ◌+◌, ◌-◌, ◌*◌, ◌^◌, ◌≤◌, min, max, true, ◌≡◌, ◌↔◌, List, [], ◌∷◌, ◌++◌, Text, leb, length,
  text_eq, text_beq_iff, ◌==◌, if◌then◌else◌, arith,
}
use astropath_dns_relay.Prelude.Dict.{lookup-insert, lookup-erase}
use astropath_dns_relay.Prelude.Window.{prune}
use astropath_dns_relay.Api.RateLimit.{
  LoginRateLimiter, lock_of, failures_of, is_allowed, lockout, lock_source, lock_global,
  record_failure, record_success,
}

-- The failures of a source that count at a failed login.
abbrev pub counted : Text → ℕ → LoginRateLimiter → List ℕ
counted key now l = prune l.window now (failures_of key l ++ now ∷ [])

-- The failures of all sources that count at a failed login.
abbrev pub counted_all : ℕ → LoginRateLimiter → List ℕ
counted_all now l = prune l.window now (l.global ++ now ∷ [])

-- A failed login adds its time to the failures of its source, less those that left the window; a
-- source with `max_attempts` of them is locked for the capped delay, which doubles with each further
-- one; `global_max_attempts` of all sources lock all for `base_lockout`. No other source's failures
-- or lock change.
pub record_failure_locks :
    (key other : Text) (now : ℕ) (l : LoginRateLimiter)
    → (failures_of other (record_failure key now l)
        ≡ (if key == other then counted key now l else failures_of other l))
      × (lock_of other (record_failure key now l) ≡ (
          if key == other
          then if leb l.max_attempts (length (counted key now l))
            then now
              + min l.max_lockout
                  (l.base_lockout * 2 ^ (length (counted key now l) - l.max_attempts))
            else lock_of key l
          else lock_of other l))
      × ((record_failure key now l).global_locked_until ≡ (
          if leb l.global_max_attempts (length (counted_all now l))
          then now + l.base_lockout
          else l.global_locked_until))
unfolding failures_of lock_of record_failure lock_source lock_global lockout
record_failure_locks key other now l = (
  ground (arith, text_beq_iff key other, lookup-insert key other (counted key now l) l.failures),
  ground (
    arith,
    text_beq_iff key other,
    lookup-insert key other (now + lockout (length (counted key now l)) l) l.locked_until,
  ),
  ground arith,
)

-- A login is allowed exactly if neither the source's lock nor the lock of all lies ahead. After a
-- successful login the source has no failures and no lock of its own, and all other sources are as
-- before.
pub record_success_clears :
    (key other : Text) (now : ℕ) (l : LoginRateLimiter)
    → ((is_allowed other now l ≡ true) ↔ (max (lock_of other l) l.global_locked_until ≤ now))
      × (failures_of other (record_success key l)
          ≡ (if key == other then [] else failures_of other l))
      × (lock_of other (record_success key l) ≡ (if key == other then 0 else lock_of other l))
unfolding is_allowed failures_of lock_of record_success
record_success_clears key other now l = (
  ground arith,
  ground (arith, text_beq_iff key other, lookup-erase key other l.failures),
  ground (arith, text_beq_iff key other, lookup-erase key other l.locked_until),
)
