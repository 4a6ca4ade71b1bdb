-- ===== src/DataPlane/Tcp/Framing.antt =====
-- The framing is transparent: the loop over bytes is the conversation over messages.
use astropath_dns_relay.Prelude.{
  ℕ, zero, suc, ◌+◌, ◌*◌, ◌/◌, ◌%◌, ◌<◌, ◌≤◌, ◌≡◌, Bool, none, some, List, [], ◌∷◌, ◌++◌, Text, ltb,
  length, take, drop, arith, refl, sym, ap, ◌∙◌, length-append, Bool-cases, inl, inr, if◌then◌else◌,
}
use mathlib.Core.List.{append_assoc, append-nil}
use astropath_dns_relay.DataPlane.Tcp.{
  Queried, answered, dropped, failed, read_exactly, frame, settle_reply, tcp_loop, handle_tcp,
}

-- The bytes of messages, one after the other.
unfoldable pub frames : List Text → List ℕ
frames [] = []
frames (m ∷ ms) = frame m ++ frames ms

-- Bytes in which a message is not complete.
abbrev pub IsCut : List ℕ → Type 0
IsCut [] = Unit
IsCut (a ∷ []) = Unit
IsCut (a ∷ b ∷ s) = length s < a * 256 + b

take-append : (m rest : List ℕ) → take (length m) (m ++ rest) ≡ m
take-append [] rest = refl
take-append (c ∷ m) rest = ap (λ x. c ∷ x) (take-append m rest)

drop-append : (m rest : List ℕ) → drop (length m) (m ++ rest) ≡ rest
drop-append [] rest = refl
drop-append (c ∷ m) rest = drop-append m rest

read_exactly-append : (m rest : List ℕ) → read_exactly (length m) (m ++ rest) ≡ some (m, rest)
unfolding read_exactly
read_exactly-append m rest =
    ground (arith, length-append m rest, take-append m rest, drop-append m rest)

read_header : (a b : ℕ) (s : List ℕ) → read_exactly 2 (a ∷ b ∷ s) ≡ some (a ∷ b ∷ [], s)
unfolding read_exactly
read_header a b s = ground arith

read_short : (n : ℕ) (s : List ℕ) → length s < n → read_exactly n s ≡ none
unfolding read_exactly
read_short n s h = ground arith

-- The two bytes of a length are read back, whatever the length.
read_body :
    (m more rest : List ℕ)
    → read_exactly (length m / 256 * 256 + length m % 256) ((m ++ more) ++ rest)
      ≡ some (m, more ++ rest)
read_body m more rest =
    let size : length m / 256 * 256 + length m % 256 ≡ length m = omega arith in
    rw (size, append_assoc m more rest) (read_exactly-append m (more ++ rest))

length-frames : (ms : List Text) → length ms ≤ length (frames ms)
unfolding frames frame
length-frames [] = omega arith
length-frames (m ∷ ms) = omega (arith, length-frames ms, length-append m (frames ms))

module _ {W : Type 0} (draining : W → Bool) (handle_query : Text → W → Queried × W) where
  -- The conversation: the replies to messages, up to the first that has none or does not fit, or to
  -- the one that is answered while the server drains.
  unfoldable pub settle_message : Queried × W → (W → List Text × W) → List Text × W
  settle_message (failed, w) next = ([], w)
  settle_message (dropped, w) next = ([], w)
  settle_message (answered reply, w) next =
      let (out, w') = next w in
      if ltb 65535 (length reply)
      then ([], w)
      else if draining w
      then (reply ∷ [], w)
      else (reply ∷ out, w')

  unfoldable pub converse : List Text → W → List Text × W
  unfolding settle_message
  converse [] w = ([], w)
  converse (m ∷ ms) w = settle_message (handle_query m w) (converse ms)

  settle_lem :
      (q : Queried × W) (next : W → List ℕ × W) (next' : W → List Text × W)
      → ((w : W) → next w ≡ (frames (next' w).0, (next' w).1))
      → settle_reply draining q next
        ≡ (frames (settle_message q next').0, (settle_message q next').1)
  unfolding settle_reply settle_message frames
  settle_lem (failed, w) next next' h = refl
  settle_lem (dropped, w) next next' h = refl
  settle_lem (answered reply, w) next next' h = elim (Bool-cases (ltb 65535 (length reply))) [
    | inl long ↦ rw long refl
    | inr short ↦ elim (Bool-cases (draining w)) [
      | inl d ↦
          rw (short, d)
            (ap (λ s. (length reply / 256 ∷ length reply % 256 ∷ s, w)) (sym (append-nil reply)))
      | inr d ↦ rw (short, d, h w) refl
    ]
  ]

  tcp_loop-cut :
      (fuel : ℕ) (rest : List ℕ) (w : W)
      → IsCut rest
      → tcp_loop draining handle_query fuel rest w ≡ ([], w)
  unfolding tcp_loop
  tcp_loop-cut zero rest w h = refl
  tcp_loop-cut (suc fuel) [] w h = refl
  tcp_loop-cut (suc fuel) (a ∷ []) w h = refl
  tcp_loop-cut (suc fuel) (a ∷ b ∷ s) w h =
      rw (read_header a b s, tcp_loop, read_short (a * 256 + b) s h) refl

  tcp_loop-read :
      (fuel hi lo : ℕ) (m body rest : List ℕ) (w : W)
      → read_exactly (hi * 256 + lo) body ≡ some (m, rest)
      → tcp_loop draining handle_query (suc fuel) (hi ∷ lo ∷ body) w
        ≡ settle_reply draining (handle_query m w) (tcp_loop draining handle_query fuel rest)
  unfolding tcp_loop
  tcp_loop-read fuel hi lo m body rest w e = rw (read_header hi lo body, tcp_loop, e) refl

  tcp_loop-frames :
      (fuel : ℕ) (ms : List Text) (rest : List ℕ) (w : W)
      → length ms < fuel
      → IsCut rest
      → tcp_loop draining handle_query fuel (frames ms ++ rest) w
        ≡ (frames (converse ms w).0, (converse ms w).1)
  unfolding frames converse frame
  tcp_loop-frames fuel [] rest w h cut = tcp_loop-cut fuel rest w cut
  tcp_loop-frames zero (m ∷ ms) rest w h cut = absurd (omega arith)
  tcp_loop-frames (suc fuel) (m ∷ ms) rest w h cut =
      tcp_loop-read fuel (length m / 256) (length m % 256) m ((m ++ frames ms) ++ rest)
        (frames ms ++ rest) w (read_body m (frames ms) rest)
      ∙ settle_lem (handle_query m w) (tcp_loop draining handle_query fuel (frames ms ++ rest))
          (converse ms) (λ w'. tcp_loop-frames fuel ms rest w' (omega arith) cut)

  -- A client that sends any messages, each after its length, and then closes with or without a part
  -- of another one: the bytes written are the replies of the conversation over these messages, each
  -- after its length, and nothing more; the state is that of the conversation.
  pub handle_tcp-frames :
      (ms : List Text) (rest : List ℕ) (w : W)
      → IsCut rest
      → handle_tcp draining handle_query (frames ms ++ rest) w
        ≡ (frames (converse ms w).0, (converse ms w).1)
  unfolding handle_tcp
  handle_tcp-frames ms rest w cut =
      tcp_loop-frames (suc (length (frames ms ++ rest))) ms rest w
        (omega (arith, length-append (frames ms) rest, length-frames ms)) cut
