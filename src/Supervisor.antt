-- ===== src/Supervisor.antt =====
-- supervisor.py: the restart budget of a plane, and the loop that restarts it. Times are
-- milliseconds; the clock, the jitter and the plane are parameters, and log lines are left out.
pub mod Budget
pub mod Loop
use astropath_dns_relay.Prelude.{
  ℕ, zero, suc, ◌+◌, ◌-◌, ◌*◌, ◌^◌, min, max, Bool, true, false, String, List, [], ◌∷◌, ◌++◌, leb,
  length, if◌then◌else◌,
}
use astropath_dns_relay.Prelude.Window.{prune}
use astropath_dns_relay.Observability.{Metrics, record_plane_restart, set_plane_unhealthy}

-- `RestartLimiter`; `events` is the deque, oldest first.
pub record RestartLimiter : Type 0 where
  pub max_restarts : ℕ
  pub window : ℕ
  pub base_backoff : ℕ
  pub max_backoff : ℕ
  pub events : List ℕ

-- The defaults of `__init__`, in milliseconds.
abbrev pub restart_limiter : RestartLimiter
restart_limiter = record {
  max_restarts = 5;
  window = 60_000;
  base_backoff = 500;
  max_backoff = 30_000;
  events = [];
}

unfoldable pub allow : ℕ → RestartLimiter → Bool × RestartLimiter
unfolding prune
allow now l =
    let events = prune l.window now l.events in
    if leb l.max_restarts (length events)
    then (false, record l { events = events })
    else (true, record l { events = events ++ now ∷ [] })

unfoldable pub backoff : ℕ → RestartLimiter → ℕ
backoff jitter l =
    let count = max (length l.events) 1 in
    min l.max_backoff (l.base_backoff * 2 ^ (count - 1)) + jitter

-- How `await factory()` ends.
pub data PlaneEnd : Type 0 where
  returned cancelled crashed : PlaneEnd

-- The plane and its surroundings `W`: the run of the factory, the shutdown event, the clock and the
-- jitter as they are read after it, and the sleep.
pub record Plane (W : Type 0) : Type 0 where
  pub name : String
  pub factory : W → PlaneEnd × W
  pub is_set : W → Bool
  pub set : W → W
  pub clock : W → ℕ
  pub jitter : W → ℕ
  pub sleep : ℕ → W → W

pub record Supervision (W : Type 0) : Type 0 where
  pub world : W
  pub limiter : RestartLimiter
  pub metrics : Metrics

-- `running` is the model's own, for a loop that has not ended within the fuel.
pub data Ending : Type 0 where
  finished exhausted shut_down cancellation running : Ending

module _ {W : Type 0} (plane : Plane W) where
  -- The budget is spent.
  unfoldable pub give_up : Supervision W → Supervision W
  give_up s = record s {
    world = plane.set s.world;
    metrics = set_plane_unhealthy plane.name true s.metrics;
  }

  -- `sleep(limiter.backoff())`
  unfoldable pub rest : Supervision W → Supervision W
  unfolding backoff
  rest s = record s { world = plane.sleep (backoff (plane.jitter s.world) s.limiter) s.world }

  -- The handler of an exception up to `limiter.allow()`.
  unfoldable pub note_crash : Supervision W → Bool × Supervision W
  unfolding allow
  note_crash s =
      let (allowed, limiter) = allow (plane.clock s.world) s.limiter in
      (allowed, record s { limiter = limiter; metrics = record_plane_restart plane.name s.metrics })

  unfoldable pub supervise : ℕ → Supervision W → Ending × Supervision W
  unfolding give_up rest note_crash
  supervise zero s = (running, s)
  supervise (suc fuel) s =
      let (end, w) = plane.factory s.world in
      let (allowed, s') = note_crash (record s { world = w }) in
      let again = supervise fuel (rest s') in
      if plane.is_set s.world then (shut_down, s) else elim end [
        | returned ↦ (finished, record s { world = w })
        | cancelled ↦ (cancellation, record s { world = w })
        | crashed ↦ if allowed then again else (exhausted, give_up s')
      ]
