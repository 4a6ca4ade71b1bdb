-- ===== src/Tests/Samples.antt =====
-- A small configuration that the tests share: one zone over a provider that logs its calls.
use astropath_dns_relay.Prelude.{Bool, true, false, none, some, List, [], ◌∷◌, ◌++◌, Text, codes}
use astropath_dns_relay.Dns.{name_eq}
use astropath_dns_relay.Dns.Labels.{Labels, labels_dns, name}
use astropath_dns_relay.Providers.Base.{Provider, done, provider_error, lit}
use astropath_dns_relay.DataPlane.Message.{txt, Rrset, UpdateMessage}
use astropath_dns_relay.DataPlane.Routing.{Route, RoutingTable, routing_table, match}
use astropath_dns_relay.DataPlane.Dispatcher.{AuditRecord, AuditSink, Dispatcher, Readings, Gateway}

-- The calls that the provider has seen: present or not, the record, the values.
abbrev pub Calls : Type 0
Calls = List (Bool × Text × List Text)

abbrev pub logger : Provider Calls
logger = record {
  kind = "logger";
  supports_multivalue = false;
  present = λ zone n values w. (done, w ++ (true, n, values) ∷ []);
  cleanup =
      λ zone n values w. (provider_error (lit "no delete" ∷ []), w ++ (false, n, values) ∷ []);
  validate = λ w. (done, w);
}

abbrev pub example_route : Route Labels Calls
example_route = record {
  zone = name "example.com";
  provider = logger;
  record_name = name "_acme-challenge.example.com";
}

abbrev pub sub_route : Route Labels Calls
sub_route = record {
  zone = name "dev.example.com";
  provider = logger;
  record_name = name "_acme-challenge.dev.example.com";
}

abbrev pub two_routes : List (Route Labels Calls)
two_routes = example_route ∷ sub_route ∷ []

abbrev pub table : RoutingTable Labels Calls
unfolding routing_table
table = routing_table two_routes

abbrev pub stored : AuditSink (List AuditRecord)
stored entry rows = some (rows ++ entry ∷ [])

abbrev pub config : Dispatcher Labels Calls (List AuditRecord)
config = record { routing = match table; audit = some stored; tsig_resolver = none }

abbrev pub readings : Readings
readings = record { started = 1000; finished = 26_000; clock = 1_700_000_000 }

abbrev pub idle : Gateway Calls (List AuditRecord)
idle = record { world = []; metrics = []; store = [] }

abbrev pub token_rrset : Rrset Labels
token_rrset = record {
  name = name "_acme-challenge.Example.com";
  rdtype = 16;
  deleting = none;
  rdatas = txt (codes "to" ∷ codes "ken" ∷ []) ∷ [];
}

abbrev pub publish : UpdateMessage Labels
publish = record {
  zone = name "Example.com" ∷ [];
  update = token_rrset ∷ [];
  keyname = some (name "acme-key");
}
