-- ===== src/DataPlane/Tcp.antt =====
-- data_plane/server.py: the loop of `_handle_tcp` over the bytes that a client sends before it closes,
-- and the reply of the UDP handler. `handle_query` and the server's flag are parameters on a state `W`;
-- the result of the loop is the bytes written. A reply longer than 65,535 bytes has no length prefix,
-- and `struct.pack` raises, which closes the connection. Writes are taken to reach the client.
pub mod Framing
use astropath_dns_relay.Prelude.{
  ℕ, zero, suc, ◌+◌, ◌*◌, ◌/◌, ◌%◌, Bool, Option, none, some, List, [], ◌∷◌, ◌++◌, Text, ltb,
  length, take, drop, if◌then◌else◌,
}

-- How `await handle_query(...)` ends: with a reply, with None, or with an exception.
pub data Queried : Type 0 where
  answered : Text → Queried
  dropped failed : Queried

-- `reader.readexactly(n)`: none for IncompleteReadError
unfoldable pub read_exactly : ℕ → List ℕ → Option (List ℕ × List ℕ)
read_exactly n stream = if ltb (length stream) n then none else some (take n stream, drop n stream)

-- `struct.unpack("!H", header)`
unfoldable pub unpack : List ℕ → ℕ
unpack (a ∷ b ∷ header) = a * 256 + b
unpack header = 0

-- `struct.pack("!H", len(reply)) + reply`
unfoldable pub frame : Text → List ℕ
frame reply = (length reply / 256) ∷ (length reply % 256) ∷ reply

module _ {W : Type 0} (draining : W → Bool) where
  -- The round from the end of `handle_query` on; `next` is the rest of the loop.
  unfoldable pub settle_reply : Queried × W → (W → List ℕ × W) → List ℕ × W
  unfolding frame
  settle_reply (failed, w) next = ([], w)
  settle_reply (dropped, w) next = ([], w)
  settle_reply (answered reply, w) next =
      let (out, w') = next w in
      if ltb 65535 (length reply)
      then ([], w)
      else if draining w
      then (frame reply, w)
      else (frame reply ++ out, w')

  unfoldable pub tcp_loop : (Text → W → Queried × W) → ℕ → List ℕ → W → List ℕ × W
  unfolding read_exactly unpack settle_reply
  tcp_loop handle_query zero stream w = ([], w)
  tcp_loop handle_query (suc fuel) stream w = elim (read_exactly 2 stream) [
    | none ↦ ([], w)
    | some (header, body) ↦ elim (read_exactly (unpack header) body) [
      | none ↦ ([], w)
      | some (payload, rest) ↦
          settle_reply (handle_query payload w) (tcp_loop handle_query fuel rest)
    ]
  ]

  -- `_handle_tcp` of a connection that is not refused: each round reads two bytes at least.
  unfoldable pub handle_tcp : (Text → W → Queried × W) → List ℕ → W → List ℕ × W
  unfolding tcp_loop
  handle_tcp handle_query stream w = tcp_loop handle_query (suc (length stream)) stream w

-- `_UdpProtocol._handle`: what is sent, over a transport if there is one
unfoldable pub udp_reply : Bool → Queried → Option Text
udp_reply has_transport failed = none
udp_reply has_transport dropped = none
udp_reply has_transport (answered reply) = if has_transport then some reply else none
