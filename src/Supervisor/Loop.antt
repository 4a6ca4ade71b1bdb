-- ===== src/Supervisor/Loop.antt =====
-- What the supervision loop ends with, and that a plane that keeps crashing is given up.
use astropath_dns_relay.Prelude.{
  ℕ, zero, suc, ◌+◌, ◌≤◌, ◌<◌, true, false, ◌≡◌, ◌≢◌, refl, inl, inr, String, [], ◌∷◌, ◌++◌, All,
  All-append, leb, length, length-append, if◌then◌else◌, arith, Bool-cases,
}
use astropath_dns_relay.Prelude.Window.{prune, prune-fresh}
use astropath_dns_relay.Observability.{Metrics, plane_restarts, plane_unhealthy}
use astropath_dns_relay.Supervisor.{
  RestartLimiter, allow, PlaneEnd, returned, cancelled, crashed, Plane, Supervision, Ending,
  finished, exhausted, shut_down, cancellation, running, give_up, rest, note_crash, supervise,
}

-- The samples of `k` crashes of a plane.
abbrev pub crashes : String → ℕ → Metrics
crashes name zero = []
crashes name (suc k) = plane_restarts name ∷ crashes name k

-- What the end of the loop adds to them.
abbrev pub verdict : String → Ending → Metrics
verdict name finished = []
verdict name exhausted = plane_unhealthy name true ∷ []
verdict name shut_down = []
verdict name cancellation = []
verdict name running = []

module _ {W : Type 0} (plane : Plane W) where
  -- The rest of a round, from the end of the plane's run on.
  abbrev after_run : ℕ → Supervision W → PlaneEnd × W → Ending × Supervision W
  after_run fuel s run =
      let (allowed, s') = note_crash plane (record s { world = run.1 }) in
      elim run.0 [
        | returned ↦ (finished, record s { world = run.1 })
        | cancelled ↦ (cancellation, record s { world = run.1 })
        | crashed ↦
            if allowed then supervise plane fuel (rest plane s') else (exhausted, give_up plane s')
      ]

  -- A count of the plane's crashes that the world keeps: a run that ends with an exception adds one,
  -- and nothing else changes it.
  pub record IsCrashCount (seen : W → ℕ) : Type 0 where
    pub crash_adds :
        (w : W) → (plane.factory w).0 ≡ crashed → seen (plane.factory w).1 ≡ suc (seen w)
    pub end_keeps : (w : W) → (plane.factory w).0 ≢ crashed → seen (plane.factory w).1 ≡ seen w
    pub set_keeps : (w : W) → seen (plane.set w) ≡ seen w
    pub sleep_keeps : (delay : ℕ) (w : W) → seen (plane.sleep delay w) ≡ seen w

  -- What an ended loop leaves, where `seen` counts the crashes.
  pub record Ended (seen : W → ℕ) (s : Supervision W) (out : Ending × Supervision W) : Type 0 where
    pub count : ℕ
    pub counted : seen out.1.world ≡ count + seen s.world
    pub samples : out.1.metrics ≡ s.metrics ++ crashes plane.name count ++ verdict plane.name out.0
    pub stopped : out.0 ≡ exhausted → plane.is_set out.1.world ≡ true

  -- Restarts that all lie after the time `t` and within the budget.
  record IsBurst (t window budget count : ℕ) (l : RestartLimiter) : Type 0 where
    budget_kept : l.max_restarts ≡ budget
    window_kept : l.window ≡ window
    since : All (λ x. t ≤ x) l.events
    counted : length l.events ≡ count
    within : count ≤ budget

  allow-IsBurst :
      (t window budget count now : ℕ) (l : RestartLimiter)
      → IsBurst t window budget count l
      → t ≤ now
      → now < t + window
      → (allow now l).0 ≡ true
      → IsBurst t window budget (suc count) (allow now l).1
  unfolding allow
  allow-IsBurst t window budget count now l b h lt e =
      let kept : prune l.window now l.events ≡ l.events =
        rw b.window_kept (prune-fresh window now t l.events lt b.since) in
      let few : leb l.max_restarts (length l.events) ≡ false = ground arith in
      rw (kept, few)
        (record {
          budget_kept = b.budget_kept;
          window_kept = b.window_kept;
          since = All-append (λ x. t ≤ x) l.events (now ∷ []) b.since (h, tt);
          counted = omega (arith, b.counted, length-append l.events (now ∷ []));
          within = ground (arith, b.budget_kept, b.counted);
        })

  supervise_burst :
      (t window budget : ℕ)
      → ((w : W) → t ≤ plane.clock w)
      → ((w : W) → plane.clock w < t + window)
      → (fuel count : ℕ) (s : Supervision W) → IsBurst t window budget count s.limiter
      → budget < count + fuel
      → (supervise plane fuel s).0 ≢ running
  unfolding supervise note_crash rest
  supervise_burst t window budget lo hi zero count s b lt = absurd (omega (arith, b.within))
  supervise_burst t window budget lo hi (suc fuel) count s b lt =
      elim (Bool-cases (plane.is_set s.world)) [
        | inl already ↦ rw already cc
        | inr up ↦ rw up (
            run (plane.factory s.world)
              (λ s' b'. supervise_burst t window budget lo hi fuel (suc count) s' b' (omega arith)))
      ]
    where
      run :
          (r : PlaneEnd × W)
          → ((s' : Supervision W)
              → IsBurst t window budget (suc count) s'.limiter
              → (supervise plane fuel s').0 ≢ running)
          → (after_run fuel s r).0 ≢ running
      run (returned, w) again = λ e. cc
      run (cancelled, w) again = λ e. cc
      run (crashed, w) again = elim (Bool-cases (allow (plane.clock w) s.limiter).0) [
        | inr spent ↦ rw spent (λ e. cc)
        | inl allowed ↦ rw allowed (
            again (rest plane (note_crash plane (record s { world = w })).1) (
              allow-IsBurst t window budget count (plane.clock w) s.limiter b (lo w) (hi w)
                allowed))
      ]

  -- A crash loop ends: if the clock stays within one window from `t` and no restart was counted
  -- before, the loop has ended, in whatever way, after at most `max_restarts` + 1 runs of the plane.
  pub supervise_ends :
      (t : ℕ) (s : Supervision W)
      → ((w : W) → t ≤ plane.clock w)
      → ((w : W) → plane.clock w < t + s.limiter.window)
      → s.limiter.events ≡ []
      → (supervise plane (suc s.limiter.max_restarts) s).0 ≢ running
  supervise_ends t s lo hi e =
      supervise_burst t s.limiter.window s.limiter.max_restarts lo hi (suc s.limiter.max_restarts) 0
        s
        (record {
          budget_kept = refl;
          window_kept = refl;
          since = rw e tt;
          counted = rw e refl;
          within = omega arith;
        })
        (omega arith)
