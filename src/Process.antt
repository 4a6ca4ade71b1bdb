-- ===== src/Process.antt =====
-- main.py: `serve` and `main`, with what they do to the resources as a trace, in order. How each await
-- ends is the record `Run`. Making the client and the database, before the `try`, is taken not to raise.
pub mod Exit
use astropath_dns_relay.Prelude.{
  ℕ, Bool, true, false, not, ◌&&◌, ◌||◌, Option, none, some, List, [], ◌∷◌, ◌++◌, nat_eq, ◌==◌,
  if◌then◌else◌,
}
use astropath_dns_relay.Prelude.Result.{Result, ok, err, ◌>>=◌, ◌>>◌}
use astropath_dns_relay.Startup.{Failure, other_exception, is_startup_error}
use astropath_dns_relay.Cache.{refresh}
use astropath_dns_relay.Supervisor.{PlaneEnd}

pub data Action : Type 0 where
  opens_client opens_database makes_server starts_planes : Action
  stops_accepting exits_api drains cancels_tasks : Action
  disposes_database closes_client cancels_dns closes_server : Action

-- A Boolean is true for an await that returns, and false for one that raises another exception than
-- `StartupError`, a cancellation included.
pub record Run : Type 0 where
  -- `validate_kek` and `validate_db_startup`
  pub kek : Result Failure (Unit {0})
  pub startup : Result Failure (Unit {0})
  pub owns_client : Bool
  -- from `create_app` to the tasks of the planes
  pub wires : Bool
  pub waits : Bool
  pub dns_done : Bool
  pub api_done : Bool
  -- `drain` and the `gather` after it
  pub winds_down : Bool
  -- `dns_task.done()` in the finally
  pub dns_over : Bool
  pub disposes : Bool
  pub closes : Bool

-- Where the `try` of `serve` ends: `made` for `dns_server`, `started` for `dns_task`.
pub record Body : Type 0 where
  pub outcome : Result Failure ℕ
  pub trace : List Action
  pub made : Bool
  pub started : Bool

unfoldable pub exit_code : Run → ℕ
exit_code run = if run.dns_done || run.api_done then 1 else 0

unfoldable pub serve_planes : Run → Body
unfolding exit_code
serve_planes run =
    let up = makes_server ∷ starts_planes ∷ [] in
    let stopped = up ++ stops_accepting ∷ exits_api ∷ drains ∷ [] in
    if not run.wires
    then record {
      outcome = err other_exception;
      trace = makes_server ∷ [];
      made = true;
      started = false;
    }
    else if not run.waits
    then record { outcome = err other_exception; trace = up; made = true; started = true }
    else if not run.winds_down
    then record { outcome = err other_exception; trace = stopped; made = true; started = true }
    else record {
      outcome = ok (exit_code run);
      trace = stopped ++ cancels_tasks ∷ [];
      made = true;
      started = true;
    }

unfoldable pub try_body : Run → Body
unfolding serve_planes
try_body run = elim run.startup [
  | err failure ↦ record { outcome = err failure; trace = []; made = false; started = false }
  | ok _ ↦ serve_planes run
]

abbrev pub when : Bool → Action → List Action
when true action = action ∷ []
when false action = []

-- The last two steps of the `finally`.
unfoldable pub close_sockets : Run → Body → List Action
close_sockets run body =
    when (body.started && not run.dns_over) cancels_dns ++ when body.made closes_server

-- The `finally`: an exception in it takes the place of the outcome, and skips what is left.
unfoldable pub finally : Run → Body → Result Failure ℕ × List Action
unfolding close_sockets
finally run body =
    if not run.disposes
    then (err other_exception, disposes_database ∷ [])
    else if run.owns_client && not run.closes
    then (err other_exception, disposes_database ∷ closes_client ∷ [])
    else (
      body.outcome,
      disposes_database ∷ when run.owns_client closes_client ++ close_sockets run body,
    )

unfoldable pub serve : Run → Result Failure ℕ × List Action
unfolding try_body finally
serve run = elim run.kek [
  | err failure ↦ (err failure, [])
  | ok _ ↦
      let body = try_body run in
      let (outcome, last) = finally run body in
      (outcome, when run.owns_client opens_client ++ (opens_database ∷ body.trace ++ last))
]

-- `main`, with the exception that escapes it
unfoldable pub main : Run → Result Failure ℕ
unfolding serve is_startup_error
main run = elim (serve run).0 [
  | ok code ↦ ok code
  | err failure ↦ if is_startup_error failure then ok 2 else err failure
]

-- `_safe_initial_refresh`, with the outcome of the load
unfoldable pub safe_initial_refresh : {S : Type 0} → Option S → Option S → Option S
unfolding refresh
safe_initial_refresh loaded cache = (refresh loaded cache).1

-- `_management_factory`: whether it sets `should_exit`, and how it ends, for a serve task that is done
-- before the shutdown event or not, and that ends in a way of its own.
unfoldable pub management_factory : (done_first : Bool) → PlaneEnd → Bool × PlaneEnd
management_factory done_first end = if done_first then (false, end) else (true, end)
