-- ===== src/Api/RateLimit.antt =====
-- api/ratelimit.py: `LoginRateLimiter`. Times are milliseconds; every method takes the reading of its
-- clock, and `retry_after` answers in whole seconds.
pub mod Laws
use mathlib.Core.Option
use astropath_dns_relay.Prelude.{
  ℕ, ◌+◌, ◌-◌, ◌*◌, ◌/◌, ◌^◌, min, max, Bool, true, false, not, ◌&&◌, Option, List, [], ◌∷◌, ◌++◌,
  Text, leb, ltb, length, text_eq, if◌then◌else◌,
}
use astropath_dns_relay.Prelude.Dict.{Dict, lookup, insert, erase}
use astropath_dns_relay.Prelude.Window.{prune}

pub record LoginRateLimiter : Type 0 where
  pub max_attempts : ℕ
  pub window : ℕ
  pub base_lockout : ℕ
  pub max_lockout : ℕ
  pub global_max_attempts : ℕ
  pub failures : Dict Text (List ℕ)
  pub locked_until : Dict Text ℕ
  pub global : List ℕ
  pub global_locked_until : ℕ

-- The defaults of `__init__`, in milliseconds.
abbrev pub login_rate_limiter : LoginRateLimiter
login_rate_limiter = record {
  max_attempts = 5;
  window = 300_000;
  base_lockout = 60_000;
  max_lockout = 3_600_000;
  global_max_attempts = 20;
  failures = [];
  locked_until = [];
  global = [];
  global_locked_until = 0;
}

-- `self._locked_until.get(key, 0.0)` and `self._failures.setdefault(key, deque())`
unfoldable pub lock_of : Text → LoginRateLimiter → ℕ
unfolding lookup
lock_of key l = Option.get_or (lookup key l.locked_until) 0

unfoldable pub failures_of : Text → LoginRateLimiter → List ℕ
unfolding lookup
failures_of key l = Option.get_or (lookup key l.failures) []

unfoldable pub is_allowed : Text → ℕ → LoginRateLimiter → Bool
unfolding lock_of
is_allowed key now l = if ltb now l.global_locked_until then false else leb (lock_of key l) now

-- The delay for a number of recent failures.
unfoldable pub lockout : ℕ → LoginRateLimiter → ℕ
lockout count l = min l.max_lockout (l.base_lockout * 2 ^ (count - l.max_attempts))

-- The two tests at the end of `record_failure`.
unfoldable pub lock_source : Text → ℕ → List ℕ → LoginRateLimiter → LoginRateLimiter
unfolding lockout insert
lock_source key now events l =
    if leb l.max_attempts (length events)
    then record l { locked_until = insert key (now + lockout (length events) l) l.locked_until }
    else l

unfoldable pub lock_global : ℕ → LoginRateLimiter → LoginRateLimiter
lock_global now l =
    if leb l.global_max_attempts (length l.global)
    then record l { global_locked_until = now + l.base_lockout }
    else l

unfoldable pub record_failure : Text → ℕ → LoginRateLimiter → LoginRateLimiter
unfolding lock_source lock_global failures_of prune insert
record_failure key now l =
    let events = prune l.window now (failures_of key l ++ now ∷ []) in
    let noted = record l {
      failures = insert key events l.failures;
      global = prune l.window now (l.global ++ now ∷ []);
    } in
    lock_global now (lock_source key now events noted)

unfoldable pub record_success : Text → LoginRateLimiter → LoginRateLimiter
unfolding erase
record_success key l = record l {
  failures = erase key l.failures;
  locked_until = erase key l.locked_until;
}

unfoldable pub retry_after : Text → ℕ → LoginRateLimiter → ℕ
unfolding lock_of
retry_after key now l = (max (lock_of key l) l.global_locked_until - now) / 1000
