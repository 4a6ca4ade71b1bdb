-- ===== src/Prelude/Window.antt =====
-- A deque of event times, oldest first, from whose front expired times are dropped: the counting of
-- events in a sliding window that the restart limiter and the login limiter share.
use mathlib.Core.Path.{◌≡◌, refl}
use mathlib.Core.List.{List, [], ◌∷◌, ◌++◌}
use Prim.Native.Nat.{ℕ, suc, ◌+◌, ◌≤◌, ◌<◌}
use native.Mathlib.Omega.{arith}
use astropath_dns_relay.Prelude.Tests.{leb, if◌then◌else◌}
use astropath_dns_relay.Prelude.Lists.{length, All}

-- `while events and events[0] <= now - window: events.popleft()`
unfoldable pub prune : ℕ → ℕ → List ℕ → List ℕ
prune window now [] = []
prune window now (x ∷ events) =
    let rest = prune window now events in if leb (x + window) now then rest else x ∷ events

-- The number of events after `now - window`.
unfoldable pub recent : ℕ → ℕ → List ℕ → ℕ
recent window now [] = 0
recent window now (x ∷ events) =
    let rest = recent window now events in if leb (x + window) now then rest else suc rest

-- Times that do not go back.
abbrev pub Sorted : List ℕ → Type 0
Sorted [] = Unit
Sorted (x ∷ events) = All (λ y. x ≤ y) events × Sorted events

pub recent-le-length : (window now : ℕ) (events : List ℕ) → recent window now events ≤ length events
unfolding recent
recent-le-length window now [] = omega arith
recent-le-length window now (x ∷ events) = ground (arith, recent-le-length window now events)

-- All events that are still in the window are kept.
pub recent-prune :
    (window now : ℕ) (events : List ℕ)
    → recent window now (prune window now events) ≡ recent window now events
unfolding recent prune
recent-prune window now [] = refl
recent-prune window now (x ∷ events) = ground (arith, recent-prune window now events)

pub prune-prune :
    (window now later : ℕ) (events : List ℕ)
    → now ≤ later
    → prune window later (prune window now events) ≡ prune window later events
unfolding prune
prune-prune window now later [] h = refl
prune-prune window now later (x ∷ events) h = ground (arith, prune-prune window now later events h)

recent-fresh :
    (window now x : ℕ) (events : List ℕ)
    → now < x + window
    → All (λ y. x ≤ y) events
    → recent window now events ≡ length events
unfolding recent
recent-fresh window now x [] lt h = refl
recent-fresh window now x (y ∷ events) lt h =
    ground (arith, recent-fresh window now x events lt h.1, h.0)

-- Of sorted times, nothing else is kept.
pub length-prune :
    (window now : ℕ) (events : List ℕ)
    → Sorted events
    → length (prune window now events) ≡ recent window now events
unfolding prune recent
length-prune window now [] h = refl
length-prune window now (x ∷ events) h =
    ground (arith, length-prune window now events h.1, recent-fresh window now x events)

pub recent-append :
    (window now : ℕ) (xs ys : List ℕ)
    → recent window now (xs ++ ys) ≡ recent window now xs + recent window now ys
unfolding recent
recent-append window now [] ys = omega arith
recent-append window now (x ∷ xs) ys = ground (arith, recent-append window now xs ys)

-- What a first pruning dropped, a later one would have dropped.
pub prune-append :
    (window now later : ℕ) (events more : List ℕ)
    → now ≤ later
    → prune window later (prune window now events ++ more) ≡ prune window later (events ++ more)
unfolding prune
prune-append window now later [] more h = refl
prune-append window now later (x ∷ events) more h =
    ground (arith, prune-append window now later events more h)

pub recent-antitone :
    (window now later : ℕ) (events : List ℕ)
    → now ≤ later
    → recent window later events ≤ recent window now events
unfolding recent
recent-antitone window now later [] h = omega arith
recent-antitone window now later (x ∷ events) h =
    ground (arith, recent-antitone window now later events h)

pub All-le :
    (now later : ℕ) (events : List ℕ)
    → now ≤ later
    → All (λ x. x ≤ now) events
    → All (λ x. x ≤ later) events
All-le now later [] h a = tt
All-le now later (x ∷ events) h a = (omega (arith, a.0), All-le now later events h a.1)

All-snoc :
    (x now : ℕ) (events : List ℕ)
    → x ≤ now
    → All (λ y. x ≤ y) events
    → All (λ y. x ≤ y) (events ++ now ∷ [])
All-snoc x now [] h a = (h, tt)
All-snoc x now (y ∷ events) h a = (a.0, All-snoc x now events h a.1)

pub Sorted-snoc :
    (now : ℕ) (events : List ℕ)
    → Sorted events
    → All (λ x. x ≤ now) events
    → Sorted (events ++ now ∷ [])
Sorted-snoc now [] s a = (tt, tt)
Sorted-snoc now (x ∷ events) s a = (All-snoc x now events a.0 s.0, Sorted-snoc now events s.1 a.1)

pub All-le-snoc :
    (now : ℕ) (events : List ℕ)
    → All (λ x. x ≤ now) events
    → All (λ x. x ≤ now) (events ++ now ∷ [])
All-le-snoc now [] a = (omega arith, tt)
All-le-snoc now (x ∷ events) a = (a.0, All-le-snoc now events a.1)

-- A deque that stands for a history of events up to a time: from that time on, both have the same
-- events left.
pub record Tracks (window t : ℕ) (history events : List ℕ) : Type 0 where
  pub same : (later : ℕ) → t ≤ later → prune window later events ≡ prune window later history
  pub sorted : Sorted history
  pub past : All (λ x. x ≤ t) history

pub Tracks-empty : (window t : ℕ) → Tracks window t [] []
Tracks-empty window t = record { same = λ later h. refl; sorted = tt; past = tt }

pub length-Tracks :
    (window t now : ℕ) (history events : List ℕ)
    → Tracks window t history events
    → t ≤ now
    → length (prune window now events) ≡ recent window now history
length-Tracks window t now history events k h =
    rw (k.same now h) (length-prune window now history k.sorted)

pub Tracks-prune :
    (window t now : ℕ) (history events : List ℕ)
    → Tracks window t history events
    → t ≤ now
    → Tracks window now history (prune window now events)
Tracks-prune window t now history events k h = record {
  same = λ later l. rw (prune-prune window now later events l) (k.same later (omega arith));
  sorted = k.sorted;
  past = All-le t now history h k.past;
}

-- Nothing is dropped while no event has left the window.
pub prune-fresh :
    (window now t : ℕ) (events : List ℕ)
    → now < t + window
    → All (λ x. t ≤ x) events
    → prune window now events ≡ events
unfolding prune
prune-fresh window now t [] lt a = refl
prune-fresh window now t (x ∷ events) lt a =
    ground (arith, prune-fresh window now t events lt a.1, a.0)
