-- ===== src/Audit.antt =====
-- audit.py: the append-only audit table, with the sink that the dispatcher writes to; and
-- api/routes_events.py: the page of its newest rows. Ids and times come from the database.
pub mod Pages
use astropath_dns_relay.Prelude.{
  ℕ, Bool, true, false, ◌&&◌, ◌||◌, String, Option, none, some, List, [], ◌∷◌, ◌++◌, Text, ltb, leb,
  length, take, drop, nat_eq, ◌==◌, if◌then◌else◌,
}
use astropath_dns_relay.Providers.Base.{Message}
use astropath_dns_relay.DataPlane.Dispatcher.{AuditRecord, AuditSink}

pub record ChallengeEvent : Type 0 where
  pub id : ℕ
  pub ts : ℕ
  pub zone : Text
  pub record_name : Text
  pub action : String
  pub provider : String
  pub result : String
  pub latency_ms : ℕ
  pub tsig_key_id : Option ℕ
  pub source : String
  pub error_detail : Option Message

unfoldable pub event_of : ℕ → ℕ → AuditRecord → ChallengeEvent
event_of id ts entry = record {
  id = id;
  ts = ts;
  zone = entry.zone;
  record_name = entry.record_name;
  action = entry.action;
  provider = entry.provider;
  result = entry.result;
  latency_ms = entry.latency_ms;
  tsig_key_id = entry.tsig_key_id;
  source = entry.source;
  error_detail = entry.error_detail;
}

-- `DbAuditSink.record`; the commit of a database that is not up raises.
unfoldable pub db_audit_sink : ℕ → ℕ → Bool → AuditSink (List ChallengeEvent)
unfolding event_of
db_audit_sink id ts up entry events =
    if up then some (events ++ event_of id ts entry ∷ []) else none

-- `ORDER BY ts DESC, id DESC`: whether a row stands before another one.
unfoldable pub before : ChallengeEvent → ChallengeEvent → Bool
before a b = ltb b.ts a.ts || a.ts == b.ts && leb b.id a.id

unfoldable pub place : ChallengeEvent → List ChallengeEvent → List ChallengeEvent
unfolding before
place a [] = a ∷ []
place a (b ∷ events) = if before a b then a ∷ (b ∷ events) else b ∷ place a events

unfoldable pub newest_first : List ChallengeEvent → List ChallengeEvent
unfolding place
newest_first [] = []
newest_first (a ∷ events) = place a (newest_first events)

pub record ChallengeEventPage : Type 0 where
  pub items : List ChallengeEvent
  pub total : ℕ
  pub limit : ℕ
  pub offset : ℕ

-- `list_events`; none for the 422 of a query out of bounds
unfoldable pub list_events : ℕ → ℕ → List ChallengeEvent → Option ChallengeEventPage
unfolding newest_first
list_events limit offset events =
    if leb 1 limit && leb limit 200
    then some (record {
      items = take limit (drop offset (newest_first events));
      total = length events;
      limit = limit;
      offset = offset;
    })
    else none
