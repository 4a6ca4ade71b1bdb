-- ===== src/DataPlane/Dispatcher/Outcome.antt =====
-- The answer of `_invoke_provider` for each way in which the provider call ends, the metrics that
-- it records, and the isolation of the audit write.
use astropath_dns_relay.Prelude.{
  ◌≡◌, refl, ap, ◌∙◌, Option, none, some, List, [], ◌∷◌, ◌++◌, String, arith, ◌-◌, ◌/◌,
  if◌then◌else◌, Option-cases, inl, inr,
}
use mathlib.Core.List.{append_assoc, append-nil}
use astropath_dns_relay.Dns.{DnsName}
use astropath_dns_relay.Observability.{
  Sample, challenges, zone_last_success, provider_call_duration, audit_failures, record_challenge,
  mark_zone_success, record_audit_failure,
}
use astropath_dns_relay.Providers.Base.{Message, Reply, done, provider_error, crashed}
use astropath_dns_relay.DataPlane.Message.{noerror, servfail}
use astropath_dns_relay.DataPlane.Surface.{Action, present, cleanup}
use astropath_dns_relay.DataPlane.Dispatcher.{
  AuditRecord, Dispatcher, Readings, Gateway, Answer, replied, raised, Challenge, call_provider,
  settle, invoke_provider, AuditSink, audit_result, action_value, entry_of, is_cleanup,
}

-- The series that counts a provider failure.
abbrev pub series_for : Action → String
series_for present = "error"
series_for cleanup = "suppressed"

series_for_lem :
    (action : Action) → (if is_cleanup action then "suppressed" else "error") ≡ series_for action
series_for_lem present = refl
series_for_lem cleanup = refl

-- The words of the actions in metrics and rows.
abbrev pub word_for : Action → String
word_for present = "present"
word_for cleanup = "cleanup"

word_lem : (action : Action) → action_value action ≡ word_for action
word_lem present = refl
word_lem cleanup = refl

-- The answer that each end of the provider call must have.
abbrev pub answer_for : Action → Reply → Answer
answer_for action done = replied noerror
answer_for present (provider_error e) = replied servfail
answer_for cleanup (provider_error e) = replied noerror
answer_for action crashed = raised

module _ {N W : Type 0} ⦃d : DnsName N⦄ (t : Readings) where
  -- The samples of a call that returned or raised `ProviderError`.
  abbrev pub samples_for : Challenge N W → Reply → List Sample
  samples_for c done =
      provider_call_duration c.route.provider.kind (t.finished - t.started)
      ∷ challenges c.route.provider.kind "ok" (word_for c.action)
      ∷ zone_last_success (d.to_text c.route.zone) t.clock
      ∷ []
  samples_for c (provider_error e) =
      provider_call_duration c.route.provider.kind (t.finished - t.started)
      ∷ challenges c.route.provider.kind (series_for c.action) (word_for c.action)
      ∷ []
  samples_for c crashed = []

module _ {N W D : Type 0} ⦃d : DnsName N⦄ (cfg : Dispatcher N W D) (t : Readings) where
  settle_metrics :
      (c : Challenge N W) (reply : Reply) (s : Gateway W D)
      → cfg.audit ≡ none
      → (settle cfg t c reply s).1.metrics ≡ s.metrics ++ samples_for t c reply
  unfolding settle record_challenge mark_zone_success
  settle_metrics c done s e = rw (e, word_lem c.action) (simp append_assoc)
  settle_metrics c (provider_error x) s e =
      rw (e, series_for_lem, word_lem c.action) (simp append_assoc)
  settle_metrics c crashed s e = simp append-nil

  settle_quiet :
      (c : Challenge N W) (reply : Reply) (s : Gateway W D)
      → cfg.audit ≡ none
      → (settle cfg t c reply s).1 ≡ record s { metrics = s.metrics ++ samples_for t c reply }
  unfolding settle
  settle_quiet c done s e = ground (arith, settle_metrics c done s)
  settle_quiet c (provider_error x) s e = ground (arith, settle_metrics c (provider_error x) s)
  settle_quiet c crashed s e = ground (arith, settle_metrics c crashed s)

module _ {N W D : Type 0} ⦃d : DnsName N⦄ (cfg : Dispatcher N W D) (t : Readings) where
  settle_outcome :
      (c : Challenge N W) (reply : Reply) (s : Gateway W D)
      → ((settle cfg t c reply s).0 ≡ answer_for c.action reply)
        × ((settle cfg t c reply s).1.world ≡ s.world)
  unfolding settle
  settle_outcome c done s = ground arith
  settle_outcome c (provider_error e) s = ground arith
  settle_outcome c crashed s = ground arith

  -- The row of a call: its latency in whole milliseconds, and the key that authorized it.
  abbrev pub row_for : Challenge N W → String → Option Message → AuditRecord
  row_for c result error = record {
    zone = d.to_text c.route.zone;
    record_name = c.record_name;
    action = word_for c.action;
    provider = c.route.provider.kind;
    result = result;
    latency_ms = (t.finished - t.started) / 1000;
    tsig_key_id = c.tsig_key_id;
    source = c.source;
    error_detail = error;
  }

  -- What a write of the sink leaves: its store, or one audit failure more and the old store.
  abbrev pub written : Option D → Gateway W D → Gateway W D
  written none s = record {
    world = s.world;
    metrics = s.metrics ++ audit_failures ∷ [];
    store = s.store;
  }
  written (some stored) s = record { world = s.world; metrics = s.metrics; store = stored }

  -- What the audit write adds to a settled call: the stored row, or one failure sample.
  abbrev pub audited : Option (AuditSink D) → Challenge N W → Reply → Gateway W D → Gateway W D
  audited none c reply s = s
  audited (some sink) c done s = written (sink (row_for c "ok" none) s.store) s
  audited (some sink) c (provider_error e) s = written (sink (row_for c "error" (some e)) s.store) s
  audited (some sink) c crashed s = s

  audit_result_lem : (o : Option D) (s : Gateway W D) → audit_result o s ≡ written o s
  unfolding record_audit_failure audit_result
  audit_result_lem none s = refl
  audit_result_lem (some stored) s = refl

  row_lem :
      (c : Challenge N W) (result : String) (error : Option Message)
      → entry_of cfg t c result error ≡ row_for c result error
  row_lem c result error =
      ap (λ word. record (row_for c result error) { action = word }) (word_lem c.action)

  write_audit_lem :
      (sink : AuditSink D) (c : Challenge N W) (result : String) (error : Option Message)
      (s : Gateway W D)
      → audit_result (sink (entry_of cfg t c result error) s.store) s
        ≡ written (sink (row_for c result error) s.store) s
  write_audit_lem sink c result error s =
      audit_result_lem (sink (entry_of cfg t c result error) s.store) s
      ∙ ap (λ row. written (sink row s.store) s) (row_lem c result error)

  settle-audited :
      (c : Challenge N W) (reply : Reply) (s : Gateway W D)
      → (settle cfg t c reply s).1
        ≡ audited cfg.audit c reply (settle (record cfg { audit = none }) t c reply s).1
  unfolding settle
  settle-audited c done s = elim (Option-cases cfg.audit) [
    | inl absent ↦ ground (arith, absent)
    | inr (sink, there) ↦ ground (
      arith,
      there,
      write_audit_lem sink c "ok" none (settle (record cfg { audit = none }) t c done s).1,
    )
  ]
  settle-audited c (provider_error x) s = elim (Option-cases cfg.audit) [
    | inl absent ↦ ground (arith, absent)
    | inr (sink, there) ↦ ground (
      arith,
      there,
      write_audit_lem sink c "error" (some x)
          (settle (record cfg { audit = none }) t c (provider_error x) s).1,
    )
  ]
  settle-audited c crashed s = ground arith

  -- Whatever the audit sink does, `invoke_provider` answers by the end of the provider call alone:
  -- NOERROR for a return, SERVFAIL for a `ProviderError` on present, NOERROR for one on cleanup,
  -- and it raises for any other exception. The provider's world is the one that the call left.
  pub invoke_provider_outcome :
      (c : Challenge N W) (s : Gateway W D)
      → ((invoke_provider cfg t c s).0 ≡ answer_for c.action (call_provider c s.world).0)
        × ((invoke_provider cfg t c s).1.world ≡ (call_provider c s.world).1)
  unfolding invoke_provider
  invoke_provider_outcome c s =
      let (reply, w) = call_provider c s.world in settle_outcome c reply (record s { world = w })

  -- The metrics and the store after `invoke_provider`: the samples of the outcome (the latency,
  -- the challenge under its series, the zone's success time if it succeeded, nothing for an
  -- unexpected exception), and then the audit row, or one audit failure and the old store.
  pub invoke_provider_records :
      (c : Challenge N W) (s : Gateway W D)
      → (invoke_provider cfg t c s).1
        ≡ audited cfg.audit c (call_provider c s.world).0 (record {
          world = (call_provider c s.world).1;
          metrics = s.metrics ++ samples_for t c (call_provider c s.world).0;
          store = s.store;
        })
  unfolding invoke_provider
  invoke_provider_records c s =
      let (reply, w) = call_provider c s.world in
      let called : Gateway W D = record s { world = w } in
      settle-audited c reply called
      ∙ ap (audited cfg.audit c reply)
          (settle_quiet (record cfg { audit = none }) t c reply called refl)
