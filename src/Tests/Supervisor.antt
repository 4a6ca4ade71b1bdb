-- ===== src/Tests/Supervisor.antt =====
-- A plane that crashes every time.
use astropath_dns_relay.Prelude.{
  ℕ, suc, ◌≤◌, ◌<◌, Bool, true, false, ◌≡◌, ◌≢◌, ◌↔◌, refl, [], ◌∷◌, arith,
}
use astropath_dns_relay.Prelude.Window.{recent}
use astropath_dns_relay.Supervisor.{
  restart_limiter, allow, Plane, crashed, Supervision, running, supervise,
}
use astropath_dns_relay.Supervisor.Budget.{Reaches, start, granted, allow_iff, Reaches-bounded}
use astropath_dns_relay.Supervisor.Loop.{supervise_ends}

first_restart : Reaches 5 60_000 (1000 ∷ []) 1000 (allow 1000 restart_limiter).1
unfolding allow
first_restart =
    granted [] 0 1000 restart_limiter (start restart_limiter refl refl refl) (omega arith) refl

allow_iff_example :
    ((allow 2000 (allow 1000 restart_limiter).1).0 ≡ true) ↔ (recent 60_000 2000 (1000 ∷ []) < 5)
allow_iff_example =
    allow_iff 5 60_000 (1000 ∷ []) 1000 2000 (allow 1000 restart_limiter).1 first_restart
      (omega arith)

Reaches-bounded_example : recent 60_000 1000 (1000 ∷ []) ≤ 5
Reaches-bounded_example =
    Reaches-bounded 5 60_000 (1000 ∷ []) 1000 (allow 1000 restart_limiter).1 1000 first_restart
      (omega arith)

-- The world is the shutdown event and the number of crashes, and the clock stands still.
abbrev broken : Plane (Bool × ℕ)
broken = record {
  name = "dns";
  factory = λ w. (crashed, (w.0, suc w.1));
  is_set = λ w. w.0;
  set = λ w. (true, w.1);
  clock = λ w. 7;
  jitter = λ w. 0;
  sleep = λ delay w. w;
}

abbrev fresh : Supervision (Bool × ℕ)
fresh = record { world = (false, 0); limiter = restart_limiter; metrics = [] }

supervise_ends_example : (supervise broken (suc restart_limiter.max_restarts) fresh).0 ≢ running
supervise_ends_example = supervise_ends broken 7 fresh (λ w. omega arith) (λ w. omega arith) refl
