-- ===== src/Tests/Dispatch.antt =====
-- The dispatcher on concrete UPDATEs.
use astropath_dns_relay.Prelude.{
  ℕ, Bool, false, ◌≡◌, refl, none, some, List, [], ◌∷◌, ◌++◌, Text, codes, ◌↔◌, ◌⊎◌, length, ◌≤◌,
  text_beq, lower,
}
use astropath_dns_relay.Dns.{up}
use astropath_dns_relay.Dns.Labels.{Labels, labels_dns, name, beq, canonicalize, parent}
use astropath_dns_relay.DataPlane.Message.{noerror, refused, txt}
use astropath_dns_relay.DataPlane.Routing.{Route, routing_table, match}
use astropath_dns_relay.DataPlane.Routing.Longest.{IsNearest, last_for, match_correct, route_find}
use astropath_dns_relay.DataPlane.Surface.{
  present, cleanup, validate_write_surface, normalize_txt_values, zone_from_message, tokens_of,
  token_of, join, is_ascii,
}
use astropath_dns_relay.DataPlane.Surface.Laws.{
  IsAllowed, AreTokens, validate_write_surface_iff, normalize_txt_values_iff,
}
use astropath_dns_relay.DataPlane.Dispatcher.{
  Challenge, replied, dispatch, admit, invoke_provider, call_provider,
}
use astropath_dns_relay.DataPlane.Dispatcher.Laws.{IsAuthorized, dispatch_surface}
use astropath_dns_relay.DataPlane.Dispatcher.Outcome.{
  answer_for, samples_for, audited, invoke_provider_outcome, invoke_provider_records,
}
use astropath_dns_relay.Tests.Samples.{
  Calls, two_routes, example_route, config, readings, idle, token_rrset, publish,
}

published : (dispatch config readings publish "10.0.0.1" idle).0 ≡ replied noerror
unfolding dispatch admit match routing_table name text_beq lower beq canonicalize parent
    zone_from_message validate_write_surface normalize_txt_values tokens_of token_of join is_ascii
    invoke_provider call_provider
published = refl

match_correct_example :
    ((r : Route Labels Calls)
      → match (routing_table two_routes) (name "a.dev.example.com") ≡ some r
      → IsNearest (route_find two_routes) (name "a.dev.example.com") r)
    × (match (routing_table two_routes) (name "a.dev.example.com") ≡ none
        → (k : ℕ) (b : Labels) → up k (name "a.dev.example.com") ≡ some b
        → last_for b two_routes ≡ none)
match_correct_example = match_correct two_routes (name "a.dev.example.com")

validate_write_surface_iff_example :
    (validate_write_surface publish example_route ≡ some (present, token_rrset))
    ↔ IsAllowed publish example_route present token_rrset
validate_write_surface_iff_example =
    validate_write_surface_iff publish example_route present token_rrset

normalize_txt_values_iff_example :
    (normalize_txt_values (txt (codes "ab" ∷ []) ∷ []) present false ≡ some (codes "ab" ∷ [])) ↔ (
      AreTokens (txt (codes "ab" ∷ []) ∷ []) (codes "ab" ∷ [])
      × (◌≡◌ {A = Bool} false false → length (codes "ab" ∷ []) ≤ 1)
      × (◌≡◌ {A = List Text} (codes "ab" ∷ []) [] → present ≡ cleanup))
normalize_txt_values_iff_example =
    normalize_txt_values_iff (txt (codes "ab" ∷ []) ∷ []) present false (codes "ab" ∷ [])

dispatch_surface_example :
    (dispatch config readings publish "10.0.0.1" idle ≡ (replied refused, idle))
    ⊎ ((c : Challenge Labels Calls) × IsAuthorized config readings publish c
        × (dispatch config readings publish "10.0.0.1" idle
            ≡ invoke_provider config readings c idle))
dispatch_surface_example = dispatch_surface config readings publish "10.0.0.1" idle

abbrev clear : Challenge Labels Calls
clear = record {
  route = example_route;
  action = cleanup;
  record_name = codes "_acme-challenge.example.com.";
  values = codes "token" ∷ [];
  source = "10.0.0.1";
  tsig_key_id = some 7;
}

invoke_provider_outcome_example :
    ((invoke_provider config readings clear idle).0 ≡ answer_for cleanup (call_provider clear []).0)
    × ((invoke_provider config readings clear idle).1.world ≡ (call_provider clear []).1)
invoke_provider_outcome_example = invoke_provider_outcome config readings clear idle

invoke_provider_records_example :
    (invoke_provider config readings clear idle).1
    ≡ audited config readings config.audit clear (call_provider clear []).0 (record {
      world = (call_provider clear []).1;
      metrics = [] ++ samples_for readings clear (call_provider clear []).0;
      store = [];
    })
invoke_provider_records_example = invoke_provider_records config readings clear idle
