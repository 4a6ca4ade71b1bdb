-- ===== src/Process/Exit.antt =====
-- Every way out of `serve` disposes of what it made, and the exit code says how the run ended.
use astropath_dns_relay.Prelude.{
  ℕ, ◌+◌, ◌≤◌, true, false, ◌&&◌, ◌||◌, ◌≡◌, ◌↔◌, ◌⊎◌, inl, inr, Bool-cases, List, [], ◌∷◌, nat_eq,
  ◌==◌, if◌then◌else◌, arith, refl,
}
use astropath_dns_relay.Prelude.Result.{Result, ok, err}
use astropath_dns_relay.Startup.{Failure, other_exception, is_startup_error}
use astropath_dns_relay.Startup.Ready.{Result-cases}
use astropath_dns_relay.Process.{
  Action, opens_client, opens_database, makes_server, starts_planes, stops_accepting, exits_api,
  drains, cancels_tasks, disposes_database, closes_client, cancels_dns, closes_server, Run,
  exit_code, serve_planes, try_body, close_sockets, finally, serve, main,
}

abbrev rank : Action → ℕ
rank opens_client = 0
rank opens_database = 1
rank makes_server = 2
rank starts_planes = 3
rank stops_accepting = 4
rank exits_api = 5
rank drains = 6
rank cancels_tasks = 7
rank disposes_database = 8
rank closes_client = 9
rank cancels_dns = 10
rank closes_server = 11

-- How often an action is done.
unfoldable pub times : Action → List Action → ℕ
times a [] = 0
times a (b ∷ trace) = (if rank a == rank b then 1 else 0) + times a trace

-- The actions are in the order of their ranks, each at most once.
abbrev pub InOrder : ℕ → List Action → Type 0
InOrder n [] = Unit
InOrder n (a ∷ trace) = (n ≤ rank a) × InOrder (rank a + 1) trace

abbrev pub Disposed : Run → List Action → Type 0
Disposed run trace =
    InOrder 0 trace
    × (times opens_database trace ≡ times disposes_database trace)
    × (times opens_client trace ≡ times closes_client trace)
    × (times makes_server trace ≡ times closes_server trace)
    × ((run.dns_over ≡ true) ⊎ (times starts_planes trace ≡ times cancels_dns trace))

-- However the start-up, the planes and the wind-down end: what was opened is disposed of, once; in the
-- order of a stop of new work, the drain, the database, the client, the DNS task and the sockets; a DNS
-- task that still runs is cancelled. The disposal of the database and the client must not raise.
pub serve-Disposed :
    (run : Run) → run.disposes ≡ true → run.closes ≡ true → Disposed run (serve run).1
unfolding serve try_body serve_planes finally close_sockets times
serve-Disposed run d c = elim (Bool-cases run.dns_over) [
  | inl over ↦ (ground arith, ground arith, ground arith, ground arith, inl over)
  | inr runs ↦ (ground arith, ground arith, ground arith, ground arith, inr (ground arith))
]

-- A check ended with a `StartupError`.
abbrev pub Refused : Result Failure (Unit {0}) → Type 0
Refused r = (failure : Failure) × (r ≡ err failure) × (is_startup_error failure ≡ true)

-- Everything up to the disposal returned.
abbrev pub IsComplete : Run → Type 0
IsComplete run =
    (run.kek ≡ ok tt)
    × (run.startup ≡ ok tt)
    × (run.wires ≡ true)
    × (run.waits ≡ true)
    × (run.winds_down ≡ true)

abbrev escape : Failure → Result Failure ℕ
escape failure = if is_startup_error failure then ok 2 else err failure

main_kek : (run : Run) (failure : Failure) → run.kek ≡ err failure → main run ≡ escape failure
unfolding main serve
main_kek run failure e = ground arith

main_startup :
    (run : Run) (failure : Failure)
    → run.disposes ≡ true
    → run.closes ≡ true
    → run.kek ≡ ok tt
    → run.startup ≡ err failure
    → main run ≡ escape failure
unfolding main serve try_body finally
main_startup run failure d c k e = ground arith

main_started :
    (run : Run)
    → run.disposes ≡ true
    → run.closes ≡ true
    → run.kek ≡ ok tt
    → run.startup ≡ ok tt
    → main run ≡ (
        if run.wires && (run.waits && run.winds_down)
        then ok (exit_code run)
        else err other_exception)
unfolding main serve try_body finally serve_planes is_startup_error
main_started run d c k e = ground arith

-- What escapes: the exception of a step that was not a `StartupError`, or of a later step.
abbrev pub Escapes : Run → Failure → Type 0
Escapes run failure =
    ((run.kek ≡ err failure) × (is_startup_error failure ≡ false))
    ⊎ (((run.kek ≡ ok tt) × (run.startup ≡ err failure) × (is_startup_error failure ≡ false))
        ⊎ ((run.kek ≡ ok tt)
            × (run.startup ≡ ok tt)
            × ((run.wires ≡ false) ⊎ ((run.waits ≡ false) ⊎ (run.winds_down ≡ false)))
            × (failure ≡ other_exception)))

-- The three exit codes, and that every other end is an exception.
pub record ExitCodes (run : Run) (out : Result Failure ℕ) : Type 0 where
  pub healthy : (out ≡ ok 0) ↔ (IsComplete run × (run.dns_done ≡ false) × (run.api_done ≡ false))
  pub unhealthy : (out ≡ ok 1) ↔ (IsComplete run × ((run.dns_done || run.api_done) ≡ true))
  pub misconfigured : (out ≡ ok 2) ↔ (Refused run.kek ⊎ ((run.kek ≡ ok tt) × Refused run.startup))
  pub escapes :
      ((out ≡ ok 0) ⊎ ((out ≡ ok 1) ⊎ (out ≡ ok 2)))
      ⊎ ((failure : Failure) × (out ≡ err failure) × Escapes run failure)

module _ (run : Run) (d : run.disposes ≡ true) (c : run.closes ≡ true) where
  kek-ExitCodes : (failure : Failure) → run.kek ≡ err failure → ExitCodes run (main run)
  kek-ExitCodes failure e = record {
    healthy =
        (λ h. absurd (ground (arith, main_kek run failure e)), λ x. absurd (ground (arith, x.0.0)));
    unhealthy =
        (λ h. absurd (ground (arith, main_kek run failure e)), λ x. absurd (ground (arith, x.0.0)));
    misconfigured = (
      λ h. inl (failure, e, ground (arith, main_kek run failure e)),
      λ x. elim x [
        | inl (f, e', is) ↦ ground (arith, main_kek run f e')
        | inr (k, s) ↦ absurd (ground (arith, k))
      ],
    );
    escapes = elim (Bool-cases (is_startup_error failure)) [
      | inl is ↦ inl (inr (inr (ground (arith, main_kek run failure e))))
      | inr other ↦ inr (failure, ground (arith, main_kek run failure e), inl (e, other))
    ];
  }

  startup-ExitCodes :
      (failure : Failure) → run.kek ≡ ok tt → run.startup ≡ err failure → ExitCodes run (main run)
  startup-ExitCodes failure k e = record {
    healthy = (
      λ h. absurd (ground (arith, main_startup run failure d c k e)),
      λ x. absurd (ground (arith, x.0.1)),
    );
    unhealthy = (
      λ h. absurd (ground (arith, main_startup run failure d c k e)),
      λ x. absurd (ground (arith, x.0.1)),
    );
    misconfigured = (
      λ h. inr (k, (failure, e, ground (arith, main_startup run failure d c k e))),
      λ x. elim x [
        | inl (f, e', is) ↦ absurd (ground (arith, e'))
        | inr (k', (f, e', is)) ↦ ground (arith, main_startup run f d c k e')
      ],
    );
    escapes = elim (Bool-cases (is_startup_error failure)) [
      | inl is ↦ inl (inr (inr (ground (arith, main_startup run failure d c k e))))
      | inr other ↦
          inr (failure, ground (arith, main_startup run failure d c k e), inr (inl (k, e, other)))
    ];
  }

  started-ExitCodes : run.kek ≡ ok tt → run.startup ≡ ok tt → ExitCodes run (main run)
  unfolding exit_code
  started-ExitCodes k s = record {
    healthy = (
      λ h. ground (arith, main_started run d c k s),
      λ x. ground (arith, main_started run d c k s, x.0.2, x.0.3, x.0.4, x.1, x.2),
    );
    unhealthy = (
      λ h. ground (arith, main_started run d c k s),
      λ x. ground (arith, main_started run d c k s, x.0.2, x.0.3, x.0.4, x.1),
    );
    misconfigured = (
      λ h. absurd (ground (arith, main_started run d c k s)),
      λ x. elim x [
        | inl (f, e', is) ↦ absurd (ground (arith, e'))
        | inr (k', (f, e', is)) ↦ absurd (ground (arith, e'))
      ],
    );
    escapes = elim (Bool-cases (run.wires && (run.waits && run.winds_down))) [
      | inl all ↦ elim (Bool-cases (run.dns_done || run.api_done)) [
        | inl unhealthy ↦ inl (inr (inl (ground (arith, main_started run d c k s))))
        | inr healthy ↦ inl (inl (ground (arith, main_started run d c k s)))
      ]
      | inr broken ↦ inr (
        other_exception,
        ground (arith, main_started run d c k s),
        inr (inr (k, s, ground arith, refl)),
      )
    ];
  }

-- The exit code is 0 exactly when everything returned and no plane had ended before the shutdown, 1
-- exactly when everything returned and one had, and 2 exactly when the KEK or, after it, the start-up
-- checks were refused with a `StartupError`. There is no other exit code: else the exception of the step
-- that raised escapes, which is not a `StartupError` of the two checks. The disposal of the
-- database and the client must not raise.
pub main-ExitCodes :
    (run : Run) → run.disposes ≡ true → run.closes ≡ true → ExitCodes run (main run)
main-ExitCodes run d c = elim (Result-cases run.kek) [
  | inr (failure, e) ↦ kek-ExitCodes run d c failure e
  | inl k ↦ elim (Result-cases run.startup) [
    | inr (failure, e) ↦ startup-ExitCodes run d c failure k e
    | inl s ↦ started-ExitCodes run d c k s
  ]
]
