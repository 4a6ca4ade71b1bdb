-- ===== src/DataPlane/Locks.antt =====
-- data_plane/dispatcher.py: `_lock_for`, and the tasks that enter and leave the `async with` in which
-- `dispatch` calls the provider. A lock is an object that its tasks share: only `_lock_for` puts it into
-- the dict, and a change of it is seen there if it is in it. A lock is asyncio's: it is taken at once if
-- it is free and nobody waits; otherwise the task waits in order, and a release lets the first waiter
-- in. Tasks are numbers.
pub mod Exclusion
use astropath_dns_relay.Prelude.{
  ℕ, Bool, true, false, not, ◌&&◌, ◌≡◌, Option, none, some, List, [], ◌∷◌, ◌++◌, Text, text_eq,
  ◌==◌, if◌then◌else◌,
}
use astropath_dns_relay.Prelude.Dict.{Dict, lookup, insert}
use astropath_dns_relay.Dns.{DnsName}

pub record Lock : Type 0 where
  pub locked : Bool
  pub waiters : List ℕ

-- `asyncio.Lock()`
abbrev pub new_lock : Lock
new_lock = record { locked = false; waiters = [] }

-- `_locks`, and the tasks inside an `async with`, each with the key of its record
pub record Locks : Type 0 where
  pub locks : Dict Text Lock
  pub inside : List (ℕ × Text)

-- `_lock_for`: the lock, and the dict with it
unfoldable pub lock_for : Text → Dict Text Lock → Lock × Dict Text Lock
unfolding lookup insert
lock_for key locks = elim (lookup key locks) [
  | none ↦ (new_lock, insert key new_lock locks)
  | some lock ↦ (lock, locks)
]

-- The key of an owner name: `rrset.name.canonicalize().to_text()`
unfoldable pub record_key : {N : Type 0} ⦃d : DnsName N⦄ → N → Text
record_key ⦃d⦄ name = d.to_text (d.canonicalize name)

-- A change of the lock of a key.
unfoldable pub change_lock : Text → Lock → Dict Text Lock → Dict Text Lock
change_lock key lock [] = []
change_lock key lock ((j, old) ∷ locks) =
    if j == key then (j, lock) ∷ locks else (j, old) ∷ change_lock key lock locks

abbrev pub is_empty : List ℕ → Bool
is_empty [] = true
is_empty (t ∷ tasks) = false

-- `async with self._lock_for(key)`, up to the entry or the wait.
unfoldable pub enter : ℕ → Text → Locks → Locks
unfolding lock_for change_lock
enter task key s =
    let (lock, locks) = lock_for key s.locks in
    if not lock.locked && is_empty lock.waiters
    then record {
      locks = change_lock key (record lock { locked = true }) locks;
      inside = (task, key) ∷ s.inside;
    }
    else record s {
      locks = change_lock key (record lock { waiters = lock.waiters ++ task ∷ [] }) locks;
    }

-- The first waiter of a released lock goes on.
unfoldable pub admit_waiter : ℕ → Text → List ℕ → Locks → Locks
unfolding change_lock
admit_waiter task key waiters s = record {
  locks = change_lock key (record { locked = true; waiters = waiters }) s.locks;
  inside = (task, key) ∷ s.inside;
}

-- The end of the `async with`, by a return, an exception or a cancellation.
unfoldable pub leave : Text → Lock → List (ℕ × Text) → Locks → Locks
unfolding change_lock
leave key lock others s = record {
  locks = change_lock key (record lock { locked = false }) s.locks;
  inside = others;
}

-- A waiter is cancelled.
unfoldable pub abandon : Text → Lock → List ℕ → Locks → Locks
unfolding change_lock
abandon key lock waiters s = record s {
  locks = change_lock key (record lock { waiters = waiters }) s.locks;
}

pub data Step : Locks → Locks → Type 0 where
  enters : (s : Locks) (task : ℕ) (key : Text) → Step s (enter task key s)
  resumes :
      (s : Locks) (task : ℕ) (key : Text) (waiters : List ℕ)
      → lookup key s.locks ≡ some (record { locked = false; waiters = task ∷ waiters })
      → Step s (admit_waiter task key waiters s)
  leaves :
      (s : Locks) (before after : List (ℕ × Text)) (task : ℕ) (key : Text) (lock : Lock)
      → s.inside ≡ before ++ (task, key) ∷ after
      → lookup key s.locks ≡ some lock
      → Step s (leave key lock (before ++ after) s)
  abandons :
      (s : Locks) (before after : List ℕ) (task : ℕ) (key : Text) (lock : Lock)
      → lookup key s.locks ≡ some lock
      → lock.waiters ≡ before ++ task ∷ after
      → Step s (abandon key lock (before ++ after) s)

pub data Reachable : Locks → Type 0 where
  start : Reachable (record { locks = []; inside = [] })
  next : {s t : Locks} → Reachable s → Step s t → Reachable t
