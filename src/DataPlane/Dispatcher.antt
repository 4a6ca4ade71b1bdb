-- ===== src/DataPlane/Dispatcher.antt =====
-- data_plane/dispatcher.py: `Dispatcher`, from a verified UPDATE to the reply code. Log lines are
-- left out. Clock readings are microseconds, and arguments.
pub mod Laws
pub mod Outcome
use astropath_dns_relay.Prelude.{
  ℕ, ◌-◌, ◌/◌, Bool, true, false, ◌&&◌, String, Option, none, some, List, [], ◌∷◌, ◌++◌, Text,
  if◌then◌else◌,
}
use astropath_dns_relay.Prelude.Optional.{◌>>=◌}
use astropath_dns_relay.Dns.{DnsName}
use astropath_dns_relay.Observability.{
  Sample, Metrics, provider_call_duration, record_challenge, mark_zone_success,
  record_audit_failure,
}
use astropath_dns_relay.Providers.Base.{Provider, Message, Reply, done, provider_error, crashed}
use astropath_dns_relay.DataPlane.Message.{Rcode, noerror, servfail, refused, Rrset, UpdateMessage}
use astropath_dns_relay.DataPlane.Routing.{Route}
use astropath_dns_relay.DataPlane.Surface.{
  Action, present, cleanup, zone_from_message, validate_write_surface, normalize_txt_values,
}

pub record AuditRecord : Type 0 where
  pub zone : Text
  pub record_name : Text
  pub action : String
  pub provider : String
  pub result : String
  pub latency_ms : ℕ
  pub tsig_key_id : Option ℕ
  pub source : String
  pub error_detail : Option Message

-- `AuditSink.record` over a store `D`; none where it raises
abbrev pub AuditSink : Type 0 → Type 0
AuditSink D = AuditRecord → D → Option D

pub record Dispatcher (N W D : Type 0) : Type 0 where
  pub routing : N → Option (Route N W)
  pub audit : Option (AuditSink D)
  pub tsig_resolver : Option (N → Option ℕ)

-- `perf_counter` before and after the provider call, and `clock`
pub record Readings : Type 0 where
  pub started : ℕ
  pub finished : ℕ
  pub clock : ℕ

-- What the dispatcher writes to: the provider's world, the metrics, the audit store.
pub record Gateway (W D : Type 0) : Type 0 where
  pub world : W
  pub metrics : Metrics
  pub store : D

-- A coroutine returns a reply code, or raises.
pub data Answer : Type 0 where
  replied : Rcode → Answer
  raised : Answer

-- `Action.value`
abbrev pub action_value : Action → String
action_value present = "present"
action_value cleanup = "cleanup"

abbrev pub is_cleanup : Action → Bool
is_cleanup present = false
is_cleanup cleanup = true

module _ {W D : Type 0} where
  pub audit_result : Option D → Gateway W D → Gateway W D
  audit_result (some stored) s = record s { store = stored }
  audit_result none s = record s { metrics = record_audit_failure s.metrics }

  pub write_audit : Option (AuditSink D) → AuditRecord → Gateway W D → Gateway W D
  unfolding audit_result
  write_audit none entry s = s
  write_audit (some sink) entry s = audit_result (sink entry s.store) s

-- The arguments of `_invoke_provider`.
pub record Challenge (N W : Type 0) : Type 0 where
  pub route : Route N W
  pub action : Action
  pub record_name : Text
  pub values : List Text
  pub source : String
  pub tsig_key_id : Option ℕ

module _ {N W : Type 0} ⦃d : DnsName N⦄ where
  unfoldable pub call_provider : Challenge N W → W → Reply × W
  call_provider c w = elim c.action [
    | present ↦ c.route.provider.present (d.to_text c.route.zone) c.record_name c.values w
    | cleanup ↦ c.route.provider.cleanup (d.to_text c.route.zone) c.record_name c.values w
  ]

  module _ {D : Type 0} (cfg : Dispatcher N W D) (t : Readings) where
    abbrev pub entry_of : Challenge N W → String → Option Message → AuditRecord
    entry_of c result error_detail = record {
      zone = d.to_text c.route.zone;
      record_name = c.record_name;
      action = action_value c.action;
      provider = c.route.provider.kind;
      result = result;
      latency_ms = (t.finished - t.started) / 1000;
      tsig_key_id = c.tsig_key_id;
      source = c.source;
      error_detail = error_detail;
    }

    -- `provider_call_duration`, `record_challenge` and `mark_zone_success`
    pub count_challenge : Challenge N W → Bool → Metrics → Metrics
    count_challenge c ok m =
        let kind = c.route.provider.kind in
        let timed = m ++ provider_call_duration kind (t.finished - t.started) ∷ [] in
        let series : String =
          if ok then "ok" else if is_cleanup c.action then "suppressed" else "error" in
        let counted = record_challenge kind (action_value c.action) series timed in
        if ok then mark_zone_success (d.to_text c.route.zone) t.clock counted else counted

    -- What follows the `try` statement of `_invoke_provider`.
    unfoldable pub settle : Challenge N W → Reply → Gateway W D → Answer × Gateway W D
    unfolding count_challenge write_audit
    settle c done s =
        let s' = record s { metrics = count_challenge c true s.metrics } in
        (replied noerror, write_audit cfg.audit (entry_of c "ok" none) s')
    settle c (provider_error e) s =
        let s' = record s { metrics = count_challenge c false s.metrics } in
        (
          replied (if is_cleanup c.action then noerror else servfail),
          write_audit cfg.audit (entry_of c "error" (some e)) s',
        )
    settle c crashed s = (raised, s)

    unfoldable pub invoke_provider : Challenge N W → Gateway W D → Answer × Gateway W D
    unfolding settle
    invoke_provider c s =
        let (reply, w) = call_provider c s.world in settle c reply (record s { world = w })

    abbrev pub resolve_tsig_key_id : UpdateMessage N → Option ℕ
    resolve_tsig_key_id msg = do
      resolver ← cfg.tsig_resolver
      keyname ← msg.keyname
      resolver keyname

    abbrev pub challenge_of :
        UpdateMessage N → String → Route N W → Action → Rrset N → List Text → Challenge N W
    challenge_of msg source route action rrset values = record {
      route = route;
      action = action;
      record_name = d.to_text rrset.name;
      values = values;
      source = source;
      tsig_key_id = resolve_tsig_key_id msg;
    }

    -- The `try` statement of `dispatch`, none for a violation.
    pub admit_to : UpdateMessage N → String → Route N W → Option (Challenge N W)
    admit_to msg source route = do
      (action, rrset) ← validate_write_surface msg route
      values ← normalize_txt_values rrset.rdatas action route.provider.supports_multivalue
      some (challenge_of msg source route action rrset values)

    -- The checks of `dispatch`: the challenge to carry out, or none for REFUSED.
    unfoldable pub admit : UpdateMessage N → String → Option (Challenge N W)
    unfolding admit_to
    admit msg source = do
      zone ← zone_from_message msg
      route ← cfg.routing zone
      admit_to msg source route

    pub perform : Option (Challenge N W) → Gateway W D → Answer × Gateway W D
    perform none s = (replied refused, s)
    perform (some c) s = invoke_provider c s

    unfoldable pub dispatch : UpdateMessage N → String → Gateway W D → Answer × Gateway W D
    unfolding perform
    dispatch msg source s = perform (admit msg source) s
