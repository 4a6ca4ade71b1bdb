-- ===== src/Tests/Audit.antt =====
-- Two audit rows, read one by one.
use mathlib.Core.List.{Perm}
use astropath_dns_relay.Prelude.{◌≡◌, refl, none, [], ◌∷◌, codes, arith}
use astropath_dns_relay.DataPlane.Dispatcher.{AuditRecord}
use astropath_dns_relay.Audit.{ChallengeEvent, event_of, list_events}
use astropath_dns_relay.Audit.Pages.{Newest, read_pages, read_pages_complete}

abbrev entry : AuditRecord
entry = record {
  zone = codes "example.com.";
  record_name = codes "_acme-challenge.example.com.";
  action = "present";
  provider = "hurricane";
  result = "ok";
  latency_ms = 12;
  tsig_key_id = none;
  source = "10.0.0.1";
  error_detail = none;
}

abbrev older : ChallengeEvent
older = event_of 1 100 entry

abbrev newer : ChallengeEvent
newer = event_of 2 200 entry

read_pages_complete_example :
    Perm (read_pages 2 1 0 (older ∷ newer ∷ [])) (older ∷ newer ∷ [])
    × Newest (read_pages 2 1 0 (older ∷ newer ∷ []))
read_pages_complete_example =
    read_pages_complete 1 (omega arith) (omega arith) (older ∷ newer ∷ []) 2 (omega arith)

newer_first : read_pages 2 1 0 (older ∷ newer ∷ []) ≡ newer ∷ older ∷ []
unfolding read_pages event_of list_events
newer_first = refl
