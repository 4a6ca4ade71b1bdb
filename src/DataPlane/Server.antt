-- ===== src/DataPlane/Server.antt =====
-- data_plane/server.py: the state of `Rfc2136Server` and of its UDP protocol, with their methods, and
-- the steps by which `serve`, the clients and `main()` change it. A task is known by a number. Closing a
-- socket and starting a task are the event loop's.
pub mod Drain
pub mod Ready
use mathlib.Core.Option
use astropath_dns_relay.Prelude.{
  ℕ, Bool, true, false, not, ◌≡◌, Option, none, some, List, [], ◌∷◌, ◌++◌, nat_eq, ◌==◌, keep,
  contains, if◌then◌else◌,
}

-- `_UdpProtocol`
pub record UdpProtocol : Type 0 where
  pub accepting : Bool
  pub tasks : List ℕ

-- Where the coroutine `serve` stands: outside, between its two binds, or in `serve_forever`.
pub data Phase : Type 0 where
  outside between serving : Phase

-- A transport or a listening socket is true from its making to its closing. `orphans` are the tasks of
-- the UDP protocols that the server has dropped.
pub record Server : Type 0 where
  pub phase : Phase
  pub udp_transport : Bool
  pub udp_protocol : Option UdpProtocol
  pub tcp_server : Bool
  pub tcp_conns : List ℕ
  pub accepting : Bool
  pub orphans : List ℕ

-- `__init__`
abbrev pub rfc2136_server : Server
rfc2136_server = record {
  phase = outside;
  udp_transport = false;
  udp_protocol = none;
  tcp_server = false;
  tcp_conns = [];
  accepting = false;
  orphans = [];
}

abbrev pub udp_tasks : Option UdpProtocol → List ℕ
udp_tasks none = []
udp_tasks (some protocol) = protocol.tasks

-- `tasks.discard(task)`
unfoldable pub discard : ℕ → List ℕ → List ℕ
unfolding keep
discard task tasks = keep (λ t. not (t == task)) tasks

-- The first await of `serve`: a new protocol, which takes datagrams at once.
unfoldable pub bind_udp : Server → Server
bind_udp s = record s {
  phase = between;
  udp_transport = true;
  udp_protocol = some (record { accepting = true; tasks = [] });
  orphans = s.orphans ++ udp_tasks s.udp_protocol;
}

-- The second await, and the flag.
unfoldable pub bind_tcp : Server → Server
bind_tcp s = record s { phase = serving; tcp_server = true; accepting = true }

-- A bind that raises: `serve` ends before its `try`.
unfoldable pub bind_fails : Server → Server
bind_fails s = record s { phase = outside }

unfoldable pub datagram_received : ℕ → UdpProtocol → UdpProtocol
datagram_received task protocol =
    if not protocol.accepting then protocol else record protocol { tasks = task ∷ protocol.tasks }

unfoldable pub receive : ℕ → Server → Server
unfolding datagram_received
receive task s = record s { udp_protocol = Option.map (datagram_received task) s.udp_protocol }

-- The start of `_handle_tcp`: a connection is refused while the server drains.
unfoldable pub connect : ℕ → Server → Server
connect conn s = if not s.accepting then s else record s { tcp_conns = conn ∷ s.tcp_conns }

abbrev pub forget : ℕ → UdpProtocol → UdpProtocol
forget task protocol = record protocol { tasks = discard task protocol.tasks }

-- A task that ends, wherever it is kept.
unfoldable pub end_task : ℕ → Server → Server
unfolding discard
end_task task s = record s {
  udp_protocol = Option.map (forget task) s.udp_protocol;
  tcp_conns = discard task s.tcp_conns;
  orphans = discard task s.orphans;
}

abbrev pub refuse : UdpProtocol → UdpProtocol
refuse protocol = record protocol { accepting = false }

unfoldable pub stop_accepting : Server → Server
stop_accepting s = record s { accepting = false; udp_protocol = Option.map refuse s.udp_protocol }

-- The snapshot of `drain`: the tasks of connections and of the current UDP protocol. The orphans are not
-- among them.
abbrev pub inflight : Server → List ℕ
inflight s = s.tcp_conns ++ udp_tasks s.udp_protocol

-- `drain` from its snapshot on: every task of it has ended, or is cancelled and has ended.
unfoldable pub end_all : List ℕ → Server → Server
unfolding end_task
end_all [] s = s
end_all (task ∷ tasks) s = end_all tasks (end_task task s)

unfoldable pub close : Server → Server
close s = record s {
  accepting = false;
  udp_transport = false;
  udp_protocol = none;
  tcp_server = false;
  orphans = s.orphans ++ udp_tasks s.udp_protocol;
}

-- `finally: self.close()`
unfoldable pub serve_ends : Server → Server
unfolding close
serve_ends s = record (close s) { phase = outside }

pub data Event : Type 0 where
  binds opens fails takes accepts ends stops closes : Event

-- The guards are where the program makes the call: datagrams come over an open transport, and `main()`
-- closes the server when the task of `serve` is done.
pub data Step : Server → Event → Server → Type 0 where
  bound : (s : Server) → s.phase ≡ outside → Step s binds (bind_udp s)
  opened : (s : Server) → s.phase ≡ between → Step s opens (bind_tcp s)
  failed : (s : Server) → s.phase ≡ between → Step s fails (bind_fails s)
  received : (s : Server) (task : ℕ) → s.udp_transport ≡ true → Step s takes (receive task s)
  connected : (s : Server) (conn : ℕ) → s.tcp_server ≡ true → Step s accepts (connect conn s)
  done : (s : Server) (task : ℕ) → Step s ends (end_task task s)
  stopped : (s : Server) → Step s stops (stop_accepting s)
  ended : (s : Server) → s.phase ≡ serving → Step s closes (serve_ends s)
  closed : (s : Server) → s.phase ≡ outside → Step s closes (close s)

pub data Steps : Server → Server → Type 0 where
  here : (s : Server) → Steps s s
  then : {s t u : Server} {e : Event} → Steps s t → Step t e u → Steps s u
