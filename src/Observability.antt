-- ===== src/Observability.antt =====
-- observability.py: the recorders of `DataPlaneMetrics`. The Prometheus client is the trace of the
-- calls made to it, oldest first.
use astropath_dns_relay.Prelude.{
  ℕ, Bool, String, List, [], ◌∷◌, ◌++◌, ◌==◌, string_eq, if◌then◌else◌,
}

pub data Sample : Type 0 where
  -- provider, result, action
  challenges : String → String → String → Sample
  tsig_failures : String → Sample
  tsig_badtime : Sample
  -- provider, latency
  provider_call_duration : String → ℕ → Sample
  plane_restarts : String → Sample
  plane_unhealthy : String → Bool → Sample
  -- zone, timestamp
  zone_last_success : List ℕ → ℕ → Sample
  audit_failures : Sample

abbrev pub Metrics : Type 0
Metrics = List Sample

abbrev pub tsig_absent : String
tsig_absent = "absent"

abbrev pub tsig_badsig : String
tsig_badsig = "badsig"

abbrev pub tsig_badkey : String
tsig_badkey = "badkey"

abbrev pub reason_badtime : String
reason_badtime = "badtime"

abbrev pub tsig_unknownkey : String
tsig_unknownkey = "unknownkey"

unfoldable pub record_tsig_failure : String → Metrics → Metrics
record_tsig_failure reason m =
    let m' = m ++ tsig_failures reason ∷ [] in
    if reason == reason_badtime then m' ++ tsig_badtime ∷ [] else m'

-- provider, action, result, as the method orders them
unfoldable pub record_challenge : String → String → String → Metrics → Metrics
record_challenge provider action result m = m ++ challenges provider result action ∷ []

unfoldable pub record_plane_restart : String → Metrics → Metrics
record_plane_restart plane m = m ++ plane_restarts plane ∷ []

unfoldable pub set_plane_unhealthy : String → Bool → Metrics → Metrics
set_plane_unhealthy plane unhealthy m = m ++ plane_unhealthy plane unhealthy ∷ []

unfoldable pub mark_zone_success : List ℕ → ℕ → Metrics → Metrics
mark_zone_success zone timestamp m = m ++ zone_last_success zone timestamp ∷ []

unfoldable pub record_audit_failure : Metrics → Metrics
record_audit_failure m = m ++ audit_failures ∷ []
