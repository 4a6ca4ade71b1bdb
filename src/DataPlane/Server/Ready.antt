-- ===== src/DataPlane/Server/Ready.antt =====
-- When the server says that it takes work.
use mathlib.Core.Option
use astropath_dns_relay.Prelude.{
  ℕ, true, false, ◌≡◌, Option, none, some, arith, refl, subst, sym, Bool-cases, inl, inr,
}
use astropath_dns_relay.DataPlane.Server.{
  UdpProtocol, Phase, outside, between, serving, Server, rfc2136_server, bind_udp, bind_tcp,
  bind_fails, datagram_received, receive, connect, end_task, forget, stop_accepting, refuse, close,
  serve_ends, Event, Step, bound, opened, failed, received, connected, done, stopped, ended, closed,
  Steps, here, then,
}

abbrev pub HasProtocol : Option UdpProtocol → Type 0
HasProtocol none = ⊥
HasProtocol (some protocol) = Unit

abbrev IsOpen : Phase → Server → Type 0
IsOpen outside s = (s.accepting ≡ false) × (s.tcp_server ≡ false)
IsOpen between s =
    (s.accepting ≡ false)
    × (s.tcp_server ≡ false)
    × (s.udp_transport ≡ true)
    × HasProtocol s.udp_protocol
IsOpen serving s = (s.tcp_server ≡ true) × (s.udp_transport ≡ true) × HasProtocol s.udp_protocol

HasProtocol-map :
    (f : UdpProtocol → UdpProtocol) (o : Option UdpProtocol)
    → HasProtocol o
    → HasProtocol (Option.map f o)
HasProtocol-map f none h = h
HasProtocol-map f (some protocol) h = h

-- A change of the protocol's state, that lets the flag be or takes it away.
IsOpen-map :
    (f : UdpProtocol → UdpProtocol) (p : Phase) (s t : Server)
    → t.udp_protocol ≡ Option.map f s.udp_protocol
    → t.tcp_server ≡ s.tcp_server
    → t.udp_transport ≡ s.udp_transport
    → (s.accepting ≡ false → t.accepting ≡ false)
    → IsOpen p s
    → IsOpen p t
IsOpen-map f outside s t protocol tcp udp flag h = (flag h.0, ground arith)
IsOpen-map f between s t protocol tcp udp flag h =
    (flag h.0, ground arith, ground arith, rw protocol (HasProtocol-map f s.udp_protocol h.3))
IsOpen-map f serving s t protocol tcp udp flag h =
    (ground arith, ground arith, rw protocol (HasProtocol-map f s.udp_protocol h.2))

pub connect_refused : (s : Server) (conn : ℕ) → s.accepting ≡ false → connect conn s ≡ s
unfolding connect
connect_refused s conn h = ground arith

IsOpen-connect : (p : Phase) (s : Server) (conn : ℕ) → IsOpen p s → IsOpen p (connect conn s)
unfolding connect
IsOpen-connect outside s conn h = subst (IsOpen outside) (sym (connect_refused s conn h.0)) h
IsOpen-connect between s conn h = subst (IsOpen between) (sym (connect_refused s conn h.0)) h
IsOpen-connect serving s conn h = elim (Bool-cases s.accepting) [
  | inl a ↦ (ground arith, ground arith, rw (a, connect) h.2)
  | inr a ↦ subst (IsOpen serving) (sym (connect_refused s conn a)) h
]

phase-connect : (s : Server) (conn : ℕ) → (connect conn s).phase ≡ s.phase
unfolding connect
phase-connect s conn = ground arith

Step-IsOpen : (s t : Server) (e : Event) → Step s e t → IsOpen s.phase s → IsOpen t.phase t
unfolding bind_udp bind_tcp bind_fails receive end_task stop_accepting close serve_ends
Step-IsOpen _ _ _ (bound s at) h = let o = subst (λ p. IsOpen p s) at h in (o.0, o.1, refl, tt)
Step-IsOpen _ _ _ (opened s at) h = let o = subst (λ p. IsOpen p s) at h in (refl, o.2, o.3)
Step-IsOpen _ _ _ (failed s at) h = let o = subst (λ p. IsOpen p s) at h in (o.0, o.1)
Step-IsOpen _ _ _ (received s task up) h =
    IsOpen-map (datagram_received task) s.phase s (receive task s) refl refl refl (λ a. a) h
Step-IsOpen _ _ _ (connected s conn up) h =
    subst (λ p. IsOpen p (connect conn s)) (sym (phase-connect s conn))
      (IsOpen-connect s.phase s conn h)
Step-IsOpen _ _ _ (done s task) h =
    IsOpen-map (forget task) s.phase s (end_task task s) refl refl refl (λ a. a) h
Step-IsOpen _ _ _ (stopped s) h =
    IsOpen-map refuse s.phase s (stop_accepting s) refl refl refl (λ a. refl) h
Step-IsOpen _ _ _ (ended s at) h = (refl, refl)
Step-IsOpen _ _ _ (closed s at) h = subst (λ p. IsOpen p (close s)) (sym at) (refl, refl)

Steps-IsOpen : (s t : Server) → Steps s t → IsOpen s.phase s → IsOpen t.phase t
Steps-IsOpen _ _ (here s) h = h
Steps-IsOpen _ _ (then {s} {t} {u} {e} r step) h = Step-IsOpen t u e step (Steps-IsOpen s t r h)

accepting_lem :
    (p : Phase) (s : Server)
    → s.phase ≡ p
    → IsOpen p s
    → s.accepting ≡ true
    → (s.phase ≡ serving)
      × (s.udp_transport ≡ true)
      × (s.tcp_server ≡ true)
      × HasProtocol s.udp_protocol
accepting_lem outside s at h a = absurd (ground (arith, h.0))
accepting_lem between s at h a = absurd (ground (arith, h.0))
accepting_lem serving s at h a = (at, h.1, h.0, h.2)

-- In every run of the server from its making, with restarts, failed binds, clients and a shutdown in
-- any order: while `is_accepting` is true, `serve` is in `serve_forever`, both sockets are open, and
-- the UDP protocol is there.
pub Steps-accepting :
    (s : Server)
    → Steps rfc2136_server s
    → s.accepting ≡ true
    → (s.phase ≡ serving)
      × (s.udp_transport ≡ true)
      × (s.tcp_server ≡ true)
      × HasProtocol s.udp_protocol
Steps-accepting s r a =
    accepting_lem s.phase s refl (Steps-IsOpen rfc2136_server s r (refl, refl)) a
