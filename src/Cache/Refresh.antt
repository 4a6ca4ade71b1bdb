-- ===== src/Cache/Refresh.antt =====
-- Refreshes that overlap: writers commit at any time and then call `refresh`, whose lock lets one load
-- run at a time. The database is the sequence of its committed versions. A load runs four SELECTs, of
-- which each sees the version that is committed when it runs, so that a commit may fall between two of
-- them. A snapshot is kept with the versions that it was loaded from.
use astropath_dns_relay.Prelude.{
  ℕ, suc, ◌≤◌, ◌<◌, length, ◌≡◌, ◌⊎◌, Option, none, some, List, [], ◌∷◌, ◌++◌, All,
}
use astropath_dns_relay.Cache.{refresh}

-- The versions that the SELECTs of a load see: of the TSIG keys, the backends and the domains in
-- `load_config_from_db`, and of the ids in `load_tsig_key_ids`.
pub record Versions : Type 0 where
  pub keys : ℕ
  pub backends : ℕ
  pub domains : ℕ
  pub ids : ℕ

-- A load that holds the lock: the version at its call, and the versions that its SELECTs have seen,
-- the last one first.
pub record Holder : Type 0 where
  pub called : ℕ
  pub seen : List ℕ

pub record Shared (S : Type 0) : Type 0 where
  pub version : ℕ
  pub snapshot : Option (Versions × S)
  pub waiting : List ℕ
  pub holder : Option Holder

-- The name of a step, with the version at the call of the refresh that it ends.
pub data Event : Type 0 where
  commits calls acquires reads : Event
  ends : ℕ → Event

module _ {S : Type 0} (loads : Versions → Option S) where
  -- The result of a load that read these versions.
  abbrev pub stamped : Versions → Option S → Option (Versions × S)
  stamped v none = none
  stamped v (some x) = some (v, x)

  abbrev pub loaded : Versions → Option (Versions × S)
  loaded v = stamped v (loads v)

  pub data Step : Shared S → Event → Shared S → Type 0 where
    commit : (s : Shared S) → Step s commits (record s { version = suc s.version })
    call : (s : Shared S) → Step s calls (record s { waiting = s.waiting ++ s.version ∷ [] })
    -- any of the waiting calls gets a lock that is free
    acquire :
        (s : Shared S) (before after : List ℕ) (c : ℕ)
        → s.holder ≡ none
        → s.waiting ≡ before ++ c ∷ after
        → Step s acquires (record s {
          waiting = before ++ after;
          holder = some (record { called = c; seen = [] });
        })
    -- one SELECT
    read :
        (s : Shared S) (c : ℕ) (seen : List ℕ)
        → s.holder ≡ some (record { called = c; seen = seen })
        → length seen < 4
        → Step s reads (record s { holder = some (record { called = c; seen = s.version ∷ seen }) })
    -- the load has returned or raised, and the lock is released
    finish :
        (s : Shared S) (c : ℕ) (v : Versions)
        → s.holder
          ≡ some (record { called = c; seen = v.ids ∷ v.domains ∷ v.backends ∷ v.keys ∷ [] })
        → Step s (ends c) (record s { snapshot = (refresh (loaded v) s.snapshot).1; holder = none })
    -- the database could not be read, or the rows of an earlier SELECT not be used
    fail :
        (s : Shared S) (c : ℕ) (seen : List ℕ)
        → s.holder ≡ some (record { called = c; seen = seen })
        → Step s (ends c) (record s { holder = none })

  pub data Reachable : Shared S → Type 0 where
    start :
        (v : ℕ) → Reachable (record { version = v; snapshot = none; waiting = []; holder = none })
    next : {s t : Shared S} {e : Event} → Reachable s → Step s e t → Reachable t

  -- All that a snapshot was loaded from was committed at a version.
  abbrev pub IsPast : ℕ → Option (Versions × S) → Type 0
  IsPast v none = Unit
  IsPast v (some (w, x)) = w.ids ≤ v

  -- The SELECTs of a load see later and later versions, from the one at its call, which is no older
  -- than the live snapshot, to the database's.
  abbrev pub AreBetween : ℕ → ℕ → Option (Versions × S) → List ℕ → Type 0
  AreBetween c v snapshot [] = (c ≤ v) × IsPast v snapshot
  AreBetween c v snapshot (w ∷ seen) = (w ≤ v) × AreBetween c w snapshot seen

  abbrev pub IsHeld : ℕ → Option (Versions × S) → Option Holder → Type 0
  IsHeld v snapshot none = Unit
  IsHeld v snapshot (some h) = AreBetween h.called v snapshot h.seen

  pub record Inv (s : Shared S) : Type 0 where
    pub past : IsPast s.version s.snapshot
    pub called : All (λ c. c ≤ s.version) s.waiting
    pub held : IsHeld s.version s.snapshot s.holder

  -- A snapshot of versions that were committed one after the other, since the call of its load and up
  -- to the database's version, and none of them before a version of the live snapshot.
  pub record IsNewer (c v : ℕ) (before : Option (Versions × S)) (w : Versions) (x : S)
      : Type 0 where
    pub is_load : loads w ≡ some x
    pub since_call : c ≤ w.keys
    pub not_back : IsPast w.keys before
    pub in_order : (w.keys ≤ w.backends) × (w.backends ≤ w.domains) × (w.domains ≤ w.ids)
    pub committed : w.ids ≤ v

  -- The end of a refresh: the snapshot stays, or a newer one replaces it.
  abbrev pub Refreshed : ℕ → ℕ → Option (Versions × S) → Option (Versions × S) → Type 0
  Refreshed c v before after =
      (after ≡ before) ⊎ ((w : Versions) × (x : S) × (after ≡ some (w, x)) × IsNewer c v before w x)
