-- ===== src/Tests/Protocol.antt =====
-- The protocol over a decoder that knows two messages: a signed UPDATE, and one with a bad signature.
use astropath_dns_relay.Prelude.{ℕ, true, ◌≡◌, ◌⊎◌, Option, none, some, List, [], ◌∷◌, Text, codes}
use astropath_dns_relay.Prelude.Dict.{Dict}
use astropath_dns_relay.Dns.Labels.{Labels, labels_dns, name}
use astropath_dns_relay.DataPlane.Message.{UpdateMessage}
use astropath_dns_relay.DataPlane.Dispatcher.{Challenge, dispatch, invoke_provider}
use astropath_dns_relay.DataPlane.Dispatcher.Laws.{IsAuthorized}
use astropath_dns_relay.DataPlane.Protocol.{
  Codec, FromWire, parsed, bad_signature, reply_with, process_query,
}
use astropath_dns_relay.Observability.{tsig_failures}
use astropath_dns_relay.DataPlane.Protocol.Gate.{
  IsVerified, Untouched, process_query-IsAuthorized, signature, Rejected, process_query_rejects,
}
use astropath_dns_relay.Tests.Samples.{Calls, config, readings, idle, publish}

-- The cursor is the bytes that are left.
abbrev byte : List ℕ → Option (ℕ × List ℕ)
byte [] = none
byte (b ∷ rest) = some (b, rest)

abbrev decode : Text → FromWire Labels
decode [] = bad_signature
decode (_ ∷ _) = parsed (record { id = 1; had_tsig = true; opcode = 5; update = some publish })

abbrev codec : Codec Labels Text (List ℕ)
codec = record {
  from_wire = λ wire keyring. decode wire;
  cursor = λ wire. wire;
  get_bytes = λ n c. some (0 ∷ 7 ∷ 40 ∷ 0 ∷ 0 ∷ 0 ∷ 0 ∷ 0 ∷ 0 ∷ 0 ∷ 0 ∷ 1 ∷ [], c);
  get_name = λ c. some (name "acme-key", c);
  get_u16 = λ c. some (250, c);
  get_u32 = λ c. some (0, c);
  restrict = λ n c. some c;
  release = λ outer c. some c;
  get_tsig = λ rdclass c. some (some (1 ∷ 2 ∷ []), c);
}

abbrev keyring : Dict Labels Text
keyring = (name "acme-key", codes "secret") ∷ []

process_query-IsAuthorized_example :
    Untouched codec
      (0 ∷ [])
      keyring
      "10.0.0.1"
      idle
      (process_query codec (dispatch config readings) (0 ∷ []) keyring "10.0.0.1" idle).1
    ⊎ ((update : UpdateMessage Labels) × (v : IsVerified codec (0 ∷ []) keyring update)
        × (c : Challenge Labels Calls) × IsAuthorized config readings update c
        × (process_query codec (dispatch config readings) (0 ∷ []) keyring "10.0.0.1" idle ≡ (
          reply_with codec v.msg (invoke_provider config readings c idle).0,
          (invoke_provider config readings c idle).1,
        )))
process_query-IsAuthorized_example =
    process_query-IsAuthorized codec (0 ∷ []) keyring "10.0.0.1" config readings idle

process_query_rejects_example :
    Rejected codec
      (dispatch config readings)
      []
      keyring
      "10.0.0.1"
      idle
      (tsig_failures "badsig" ∷ [])
      (some 16)
      (process_query codec (dispatch config readings) [] keyring "10.0.0.1" idle)
process_query_rejects_example =
    process_query_rejects codec (dispatch config readings) [] keyring "10.0.0.1" idle
      (tsig_failures "badsig" ∷ []) (some 16) signature
