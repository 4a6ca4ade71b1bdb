-- ===== src/Api/Correlation/Scope.antt =====
-- Every response carries the id under which it was made.
use astropath_dns_relay.Prelude.{
  true, ◌≡◌, some, List, [], ◌∷◌, map, Text, codes, text_eq, text_beq_iff, All, arith, refl,
}
use astropath_dns_relay.Prelude.Dict.{lookup, lookup-insert}
use astropath_dns_relay.Correlation.{Context}
use astropath_dns_relay.Api.Correlation.{
  incoming_correlation_id, Message, response_start, other_message, send_with, App, call,
}
use astropath_dns_relay.Api.Correlation.Sanitized.{IsSanitized, incoming_correlation_id-IsSanitized}

-- The start of a response echoes an id.
abbrev pub Echoes : Text → Message → Type 0
Echoes id (response_start headers) = lookup (codes "x-correlation-id") headers ≡ some id
Echoes id (other_message m) = Unit

send_with-Echoes : (id : Text) (m : Message) → Echoes id (send_with id m)
unfolding send_with
send_with-Echoes id (response_start headers) = ground (
  arith,
  lookup-insert (codes "x-correlation-id") (codes "x-correlation-id") id headers,
  text_beq_iff (codes "x-correlation-id") (codes "x-correlation-id"),
)
send_with-Echoes id (other_message m) = tt

sent-Echoes : (id : Text) (ms : List Message) → All (Echoes id) (map (send_with id) ms)
sent-Echoes id [] = tt
sent-Echoes id (m ∷ ms) = (send_with-Echoes id m, sent-Echoes id ms)

-- For an HTTP request with any headers, and a fresh id that is sanitized: there is an id of safe
-- characters, not empty and of at most 64, under which the application runs; each start of a response
-- echoes it; the application's exception escapes if it raised; and afterwards the context is what it
-- was before.
pub call_correlates :
    (fresh : Text) (headers : List (Text × Text)) (app : App) (context : Context)
    → IsSanitized fresh
    → (id : Text) × IsSanitized id
      × All (Echoes id) (call fresh true headers app context).0
      × ((call fresh true headers app context).1 ≡ (app (some id)).1)
      × ((call fresh true headers app context).2 ≡ context)
unfolding call
call_correlates fresh headers app context ok =
    let id : Text = incoming_correlation_id fresh headers in
    (
      id,
      incoming_correlation_id-IsSanitized fresh headers ok,
      sent-Echoes id (app (some id)).0,
      refl,
      refl,
    )
