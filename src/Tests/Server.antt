-- ===== src/Tests/Server.antt =====
-- The listener in a short run, and a TCP connection with two messages.
use astropath_dns_relay.Prelude.{
  ℕ, Bool, true, false, ◌≡◌, refl, some, [], ◌∷◌, ◌++◌, Text, codes, arith,
}
use astropath_dns_relay.DataPlane.Server.{
  Server, serving, rfc2136_server, bind_udp, bind_tcp, receive, stop_accepting, Steps, here, then,
  bound, opened,
}
use astropath_dns_relay.DataPlane.Server.Ready.{HasProtocol, Steps-accepting}
use astropath_dns_relay.DataPlane.Tcp.{Queried, answered, dropped, handle_tcp}
use astropath_dns_relay.DataPlane.Tcp.Framing.{frames, converse, handle_tcp-frames}

abbrev serving_server : Server
serving_server = record rfc2136_server {
  phase = serving;
  udp_transport = true;
  udp_protocol = some (record { accepting = true; tasks = [] });
  tcp_server = true;
  accepting = true;
}

started : Steps rfc2136_server serving_server
unfolding bind_udp bind_tcp
started =
    then (then (here rfc2136_server) (bound rfc2136_server refl))
      (opened (bind_udp rfc2136_server) refl)

Steps-accepting_example :
    (serving_server.phase ≡ serving)
    × (serving_server.udp_transport ≡ true)
    × (serving_server.tcp_server ≡ true)
    × HasProtocol serving_server.udp_protocol
Steps-accepting_example = Steps-accepting serving_server started refl

abbrev busy_server : Server
busy_server = record serving_server {
  udp_protocol = some (record { accepting = true; tasks = 7 ∷ [] });
  tcp_conns = 8 ∷ [];
  orphans = 6 ∷ [];
}

-- A datagram that comes after the stop is dropped.
abbrev later_server : Server
later_server = receive 9 (stop_accepting busy_server)

-- Answers with its state and the message, and drops an empty message.
abbrev echo : Text → ℕ → Queried × ℕ
echo [] n = (dropped, n)
echo (c ∷ m) n = (answered (n ∷ c ∷ m), n)

abbrev never : ℕ → Bool
never n = false

handle_tcp-frames_example :
    handle_tcp never echo (frames (codes "ab" ∷ codes "c" ∷ []) ++ 0 ∷ 5 ∷ 1 ∷ []) 3 ≡ (
      frames (converse never echo (codes "ab" ∷ codes "c" ∷ []) 3).0,
      (converse never echo (codes "ab" ∷ codes "c" ∷ []) 3).1,
    )
handle_tcp-frames_example =
    handle_tcp-frames never echo (codes "ab" ∷ codes "c" ∷ []) (0 ∷ 5 ∷ 1 ∷ []) 3 (omega arith)

echoed :
    (converse never echo (codes "ab" ∷ codes "c" ∷ []) 3).0
    ≡ (3 ∷ codes "ab") ∷ (3 ∷ codes "c") ∷ []
unfolding converse
echoed = refl
