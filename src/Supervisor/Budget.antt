-- ===== src/Supervisor/Budget.antt =====
-- The restart limiter is exactly a sliding window over the restarts that it allowed.
use astropath_dns_relay.Prelude.{
  ℕ, suc, ◌≤◌, ◌<◌, true, false, ◌≡◌, ◌↔◌, List, [], ◌∷◌, ◌++◌, leb, length, arith,
}
use astropath_dns_relay.Prelude.Window.{
  prune, recent, Tracks, Tracks-empty, Tracks-prune, length-Tracks, prune-append, recent-append,
  recent-antitone, Sorted-snoc, All-le-snoc, All-le,
}
use astropath_dns_relay.Supervisor.{RestartLimiter, allow}

-- The limiters that a run of `allow` reaches from a fresh one of a budget and a window, with the
-- times of the restarts that it allowed, oldest first, and the time of the last call.
pub data Reaches (budget window : ℕ) : List ℕ → ℕ → RestartLimiter → Type 0 where
  start :
      (l : RestartLimiter)
      → l.max_restarts ≡ budget
      → l.window ≡ window
      → l.events ≡ []
      → Reaches budget window [] 0 l
  granted :
      (history : List ℕ) (t now : ℕ) (l : RestartLimiter)
      → Reaches budget window history t l
      → t ≤ now
      → (allow now l).0 ≡ true
      → Reaches budget window (history ++ now ∷ []) now (allow now l).1
  denied :
      (history : List ℕ) (t now : ℕ) (l : RestartLimiter)
      → Reaches budget window history t l
      → t ≤ now
      → (allow now l).0 ≡ false
      → Reaches budget window history now (allow now l).1

module _ (budget window : ℕ) where
  -- What every limiter of a run has.
  pub record IsLimiter (history : List ℕ) (t : ℕ) (l : RestartLimiter) : Type 0 where
    pub budget_kept : l.max_restarts ≡ budget
    pub window_kept : l.window ≡ window
    pub tracks : Tracks window t history l.events

  Tracks-snoc :
      (t now : ℕ) (history events : List ℕ)
      → Tracks window t history events
      → t ≤ now
      → Tracks window now (history ++ now ∷ []) (prune window now events ++ now ∷ [])
  Tracks-snoc t now history events k h = record {
    same = λ later l. rw (k.same now h) (prune-append window now later history (now ∷ []) l);
    sorted = Sorted-snoc now history k.sorted (All-le t now history h k.past);
    past = All-le-snoc now history (All-le t now history h k.past);
  }

  allow-IsLimiter_granted :
      (history : List ℕ) (t now : ℕ) (l : RestartLimiter)
      → IsLimiter history t l
      → t ≤ now
      → (allow now l).0 ≡ true
      → IsLimiter (history ++ now ∷ []) now (allow now l).1
  unfolding allow
  allow-IsLimiter_granted history t now l i h e =
      let within : leb l.max_restarts (length (prune l.window now l.events)) ≡ false =
        ground arith in
      record {
        budget_kept = rw within i.budget_kept;
        window_kept = rw within i.window_kept;
        tracks = rw (within, i.window_kept) (Tracks-snoc t now history l.events i.tracks h);
      }

  allow-IsLimiter_denied :
      (history : List ℕ) (t now : ℕ) (l : RestartLimiter)
      → IsLimiter history t l
      → t ≤ now
      → (allow now l).0 ≡ false
      → IsLimiter history now (allow now l).1
  unfolding allow
  allow-IsLimiter_denied history t now l i h e =
      let spent : leb l.max_restarts (length (prune l.window now l.events)) ≡ true = ground arith in
      record {
        budget_kept = rw spent i.budget_kept;
        window_kept = rw spent i.window_kept;
        tracks = rw (spent, i.window_kept) (Tracks-prune window t now history l.events i.tracks h);
      }

  Reaches-IsLimiter :
      (history : List ℕ) (t : ℕ) (l : RestartLimiter)
      → Reaches budget window history t l
      → IsLimiter history t l
  Reaches-IsLimiter _ _ _ (start l b w e) = record {
    budget_kept = b;
    window_kept = w;
    tracks = rw e (Tracks-empty window 0);
  }
  Reaches-IsLimiter _ _ _ (granted history t now l r h e) =
      allow-IsLimiter_granted history t now l (Reaches-IsLimiter history t l r) h e
  Reaches-IsLimiter _ _ _ (denied history t now l r h e) =
      allow-IsLimiter_denied history t now l (Reaches-IsLimiter history t l r) h e

  -- In every state that a run reaches, with a clock that does not go back, `allow` returns true
  -- exactly if fewer than `max_restarts` of the restarts allowed so far lie within the window
  -- before the call.
  pub allow_iff :
      (history : List ℕ) (t now : ℕ) (l : RestartLimiter)
      → Reaches budget window history t l
      → t ≤ now
      → ((allow now l).0 ≡ true) ↔ (recent window now history < budget)
  unfolding allow
  allow_iff history t now l r h =
      let i = Reaches-IsLimiter history t l r in
      let count : length (prune l.window now l.events) ≡ recent window now history =
        rw i.window_kept (length-Tracks window t now history l.events i.tracks h) in
      ground (arith, i.budget_kept)

  recent-snoc :
      (now later : ℕ) (history : List ℕ)
      → recent window later (history ++ now ∷ []) ≤ suc (recent window later history)
  unfolding recent
  recent-snoc now later history = ground (arith, recent-append window later history (now ∷ []))

  -- No window holds more than `max_restarts` of the restarts that a run allows, whenever it ends.
  pub Reaches-bounded :
      (history : List ℕ) (t : ℕ) (l : RestartLimiter) (later : ℕ)
      → Reaches budget window history t l
      → t ≤ later
      → recent window later history ≤ budget
  unfolding recent
  Reaches-bounded _ _ _ later (start l b w e) h = omega arith
  Reaches-bounded _ _ _ later (granted history t now l r k e) h =
      let few = (allow_iff history t now l r k).0 e in
      omega (arith, few, recent-snoc now later history, recent-antitone window now later history h)
  Reaches-bounded _ _ _ later (denied history t now l r k e) h =
      Reaches-bounded history t l later r (omega arith)
