-- ===== src/DataPlane/Server/Drain.antt =====
-- The graceful end: once the server has stopped taking work, its tasks only become fewer.
use mathlib.Core.Option
use astropath_dns_relay.Prelude.{
  ℕ, true, false, ◌≡◌, none, some, Option, List, ◌++◌, nat_eq, contains,
}
use astropath_dns_relay.DataPlane.Server.{
  UdpProtocol, Server, inflight, Event, fails, takes, accepts, ends, stops, closes, Step,
}

-- What happens when `serve` binds no more.
pub data Calm : Event → Type 0 where
  calm_fails : Calm fails
  calm_takes : Calm takes
  calm_accepts : Calm accepts
  calm_ends : Calm ends
  calm_stops : Calm stops
  calm_closes : Calm closes

pub data Draining : Server → Server → Type 0 where
  rests : (s : Server) → Draining s s
  goes_on : {s t u : Server} {e : Event} → Draining s t → Step t e u → Calm e → Draining s u

abbrev TakesNone : Option UdpProtocol → Type 0
TakesNone none = Unit
TakesNone (some protocol) = protocol.accepting ≡ false

-- All of the first list is in the second one.
abbrev pub Within : List ℕ → List ℕ → Type 0
Within xs ys = (x : ℕ) → contains xs x ≡ true → contains ys x ≡ true

-- All tasks that run, those of dropped protocols too, which `drain` does not wait for.
abbrev pub running : Server → List ℕ
running s = inflight s ++ s.orphans

-- The server has stopped.
abbrev IsStopped : Server → Type 0
IsStopped s = (s.accepting ≡ false) × TakesNone s.udp_protocol

-- One step keeps the server stopped, and adds no task.
abbrev Settles : Server → Server → Type 0
Settles s t = IsStopped t × Within (running t) (running s)
