-- ===== src/Api/Correlation.antt =====
-- api/correlation_mw.py: the inbound correlation id, and the middleware that binds it. Headers are
-- pairs of byte strings; latin-1 decoding is the identity on code points. A fresh id is an argument.
pub mod Sanitized
pub mod Scope
use astropath_dns_relay.Prelude.{
  ℕ, Bool, true, false, ◌&&◌, ◌||◌, List, [], ◌∷◌, Text, codes, leb, keep, take, contains, nat_eq,
  text_eq, ◌==◌, not, map, some, if◌then◌else◌,
}
use astropath_dns_relay.Prelude.Dict.{Dict, insert}
use astropath_dns_relay.Correlation.{Context}

abbrev pub inbound_headers : List Text
inbound_headers = codes "x-correlation-id" ∷ codes "x-request-id" ∷ []

abbrev pub max_len : ℕ
max_len = 64

-- A character that `_UNSAFE` does not match.
unfoldable pub is_safe : ℕ → Bool
is_safe c =
    leb b'A' c && leb c b'Z'
    || leb b'a' c && leb c b'z'
    || leb b'0' c && leb c b'9'
    || c == b'.'
    || c == b'_'
    || c == b'-'

unfoldable pub sanitize : Text → Text
unfolding is_safe keep
sanitize value = take max_len (keep is_safe value)

-- `_incoming_correlation_id`
unfoldable pub incoming_correlation_id : Text → List (Text × Text) → Text
unfolding sanitize contains
incoming_correlation_id fresh [] = fresh
incoming_correlation_id fresh ((name, value) ∷ headers) =
    let rest = incoming_correlation_id fresh headers in
    let candidate = sanitize value in
    if contains inbound_headers name then (if candidate == [] then rest else candidate) else rest

-- An ASGI message of the response: its start, with the headers by lower-case name, or another one.
pub data Message : Type 0 where
  response_start : Dict Text Text → Message
  other_message : ℕ → Message

-- `_send`
unfoldable pub send_with : Text → Message → Message
unfolding insert
send_with id (response_start headers) =
    response_start (insert (codes "x-correlation-id") id headers)
send_with id (other_message m) = other_message m

-- What an ASGI application does in a context: the messages it sends, whether it raised, the context.
abbrev pub App : Type 0
App = Context → List Message × Bool × Context

-- `CorrelationIdMiddleware.__call__`
unfoldable pub call : Text → Bool → List (Text × Text) → App → App
unfolding incoming_correlation_id send_with
call fresh is_http headers app context =
    let correlation_id = incoming_correlation_id fresh headers in
    let (messages, raised, inner) = app (some correlation_id) in
    if not is_http then app context else (map (send_with correlation_id) messages, raised, context)
