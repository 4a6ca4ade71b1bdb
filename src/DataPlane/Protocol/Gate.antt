-- ===== src/DataPlane/Protocol/Gate.antt =====
-- The auth gate: what reaches the dispatcher, and how a message that fails TSIG is answered.
use mathlib.Core.List.{append_assoc}
use astropath_dns_relay.Prelude.{
  ℕ, List, [], ◌∷◌, ◌++◌, true, ◌≡◌, refl, ◌⊎◌, inl, inr, ◌↔◌, String, Option, none, some, Text,
  ◌==◌, nat_eq, arith, Bool-cases, Option-cases,
}
use astropath_dns_relay.Prelude.Dict.{Dict, lookup}
use astropath_dns_relay.Dns.{DnsName, name_eq}
use astropath_dns_relay.Observability.{Sample, tsig_failures, tsig_badtime, record_tsig_failure}
use astropath_dns_relay.DataPlane.Message.{notauth, UpdateMessage}
use astropath_dns_relay.DataPlane.Dispatcher.{
  Gateway, Dispatcher, Readings, Challenge, dispatch, invoke_provider,
}
use astropath_dns_relay.DataPlane.Dispatcher.Laws.{IsAuthorized, dispatch_surface}
use astropath_dns_relay.DataPlane.Protocol.Context.{
  IsContext, extract_tsig_context-IsContext, IsContext-extract_tsig_context,
}
use astropath_dns_relay.DataPlane.Protocol.{
  Codec, Inbound, FromWire, parsed, unknown_tsig_key, bad_signature, bad_time, bad_key,
  bad_algorithm, dns_exception, Signature, from_ctx, Handled, answer, dropped, TsigWire,
  ChallengeDispatcher, extract_tsig_context, plain_error_reply, signature_of, signed_error_reply,
  reply_with, route_message, settle_parse, process_query,
}

module _ {N K C : Type 0} ⦃d : DnsName N⦄ (codec : Codec N K C) where
  -- A message whose signature was verified, and that is an UPDATE.
  pub record IsVerified (wire : Text) (keyring : Dict N K) (update : UpdateMessage N) : Type 0 where
    pub msg : Inbound N
    pub read : codec.from_wire wire keyring ≡ parsed msg
    pub signed : msg.had_tsig ≡ true
    pub opcode : msg.opcode ≡ 5
    pub is_update : msg.update ≡ some update

  module _ {W D : Type 0} (wire : Text) (keyring : Dict N K) (source : String) where
    -- Nothing was written but the metrics.
    abbrev pub Untouched : Gateway W D → Gateway W D → Type 0
    Untouched s s' = (s'.world ≡ s.world) × (s'.store ≡ s.store)

    abbrev pub Gated : ChallengeDispatcher N W D → Gateway W D → Handled N K × Gateway W D → Type 0
    Gated dispatch s out =
        Untouched s out.1
        ⊎ ((update : UpdateMessage N) × (v : IsVerified wire keyring update) × (out ≡ (
          reply_with codec v.msg (dispatch update source s).0,
          (dispatch update source s).1,
        )))

    route_message-Gated :
        (dispatch : ChallengeDispatcher N W D) (msg : Inbound N) (s : Gateway W D)
        → codec.from_wire wire keyring ≡ parsed msg
        → Gated dispatch s (route_message codec dispatch source msg s)
    unfolding route_message
    route_message-Gated dispatch msg s e = elim (Bool-cases msg.had_tsig) [
      | inr unsigned ↦ inl (ground arith, ground arith)
      | inl signed ↦ elim (Bool-cases (msg.opcode == 5)) [
        | inr other_ ↦ inl (ground arith, ground arith)
        | inl opcode ↦ elim (Option-cases msg.update) [
          | inl absent ↦ inl (ground arith, ground arith)
          | inr (update, there) ↦ inr (
            update,
            record {
              msg = msg;
              read = e;
              signed = signed;
              opcode = ground arith;
              is_update = there;
            },
            ground arith,
          )
        ]
      ]
    ]

    settle_parse-Gated :
        (dispatch : ChallengeDispatcher N W D) (s : Gateway W D) (outcome : FromWire N)
        → codec.from_wire wire keyring ≡ outcome
        → Gated dispatch s (settle_parse codec dispatch wire keyring source outcome s)
    unfolding settle_parse
    settle_parse-Gated dispatch s (parsed msg) e = route_message-Gated dispatch msg s e
    settle_parse-Gated dispatch s unknown_tsig_key e = inl (refl, refl)
    settle_parse-Gated dispatch s bad_signature e = inl (refl, refl)
    settle_parse-Gated dispatch s bad_time e = inl (refl, refl)
    settle_parse-Gated dispatch s bad_key e = inl (refl, refl)
    settle_parse-Gated dispatch s bad_algorithm e = inl (refl, refl)
    settle_parse-Gated dispatch s dns_exception e = inl (refl, refl)

    -- With the dispatcher behind it, a query changes the provider's world or the store only if its
    -- signature was verified, it is an UPDATE, and the UPDATE asks for an authorized challenge; then
    -- the world, the metrics and the store are those of that one provider call, and the reply
    -- carries its code.
    pub process_query-IsAuthorized :
        (cfg : Dispatcher N W D) (t : Readings) (s : Gateway W D)
        → Untouched s (process_query codec (dispatch cfg t) wire keyring source s).1
          ⊎ ((update : UpdateMessage N) × (v : IsVerified wire keyring update) × (c : Challenge N W)
              × IsAuthorized cfg t update c
              × (process_query codec (dispatch cfg t) wire keyring source s ≡ (
                reply_with codec v.msg (invoke_provider cfg t c s).0,
                (invoke_provider cfg t c s).1,
              )))
    unfolding process_query
    process_query-IsAuthorized cfg t s =
        elim (settle_parse-Gated (dispatch cfg t) s (codec.from_wire wire keyring) refl) [
          | inl same ↦ inl same
          | inr (update, v, out) ↦ elim (dispatch_surface cfg t update source s) [
            | inl refused_ ↦ inl (ground arith, ground arith)
            | inr (c, authorized, call) ↦ inr (update, v, c, authorized, ground arith)
          ]
        ]

  -- The TSIG failures: the samples that count each, and the error code of a signed reply. A bad time
  -- counts in a series of its own too.
  pub data TsigFailure : FromWire N → List Sample → Option ℕ → Type 0 where
    unknown : TsigFailure unknown_tsig_key (tsig_failures "unknownkey" ∷ []) none
    signature : TsigFailure bad_signature (tsig_failures "badsig" ∷ []) (some 16)
    time : TsigFailure bad_time (tsig_failures "badtime" ∷ tsig_badtime ∷ []) (some 18)
    key : TsigFailure bad_key (tsig_failures "badkey" ∷ []) (some 17)
    algorithm : TsigFailure bad_algorithm (tsig_failures "badkey" ∷ []) (some 17)

  -- A NOTAUTH reply with the id and the opcode of the wire, signed with the error code exactly if
  -- there is one and the wire's keyname and MAC were read and the keyring has a key of that name.
  pub record IsRejection (wire : Text) (keyring : Dict N K) (error : Option ℕ) (ctx : TsigWire N)
      (h : Handled N K) : Type 0 where
    pub signature : Option (Signature K)
    pub reply : h ≡ answer (from_ctx ctx.id ctx.opcode notauth signature)
    pub signs_iff :
        (g : Signature K)
        → (signature ≡ some g) ↔ (
            (name : N) × (ctx.keyname ≡ some name)
            × (ctx.mac ≡ some g.request_mac)
            × (lookup name keyring ≡ some g.key)
            × (error ≡ some g.tsig_error)
            × (g.original_id ≡ ctx.id)
            × (g.fudge ≡ 300))

  signature_of_sound :
      (keyring : Dict N K) (e : ℕ) (ctx : TsigWire N) (g : Signature K)
      → signature_of codec keyring e ctx ≡ some g
      → (name : N) × (ctx.keyname ≡ some name)
        × (ctx.mac ≡ some g.request_mac)
        × (lookup name keyring ≡ some g.key)
        × (◌≡◌ {A = Option ℕ} (some e) (some g.tsig_error))
        × (g.original_id ≡ ctx.id)
        × (g.fudge ≡ 300)
  unfolding signature_of
  signature_of_sound keyring e ctx g h = elim (Option-cases ctx.keyname) [
    | inl absent ↦ absurd (ground arith)
    | inr (name, n) ↦ elim (Option-cases ctx.mac) [
      | inl absent ↦ absurd (ground arith)
      | inr (mac, m) ↦ elim (Option-cases (lookup name keyring)) [
        | inl absent ↦ absurd (ground arith)
        | inr (secret, k) ↦
            (name, n, ground arith, ground arith, ground arith, ground arith, ground arith)
      ]
    ]
  ]

  signature_of_complete :
      (keyring : Dict N K) (e : ℕ) (ctx : TsigWire N) (g : Signature K) (name : N)
      → ctx.keyname ≡ some name
      → ctx.mac ≡ some g.request_mac
      → lookup name keyring ≡ some g.key
      → ◌≡◌ {A = Option ℕ} (some e) (some g.tsig_error)
      → g.original_id ≡ ctx.id
      → g.fudge ≡ 300
      → signature_of codec keyring e ctx ≡ some g
  unfolding signature_of
  signature_of_complete keyring e ctx g name n m k er o f = ground arith

  plain_error_reply-IsRejection :
      (wire : Text) (keyring : Dict N K) (ctx : TsigWire N)
      → extract_tsig_context codec wire ≡ some ctx
      → IsRejection wire keyring none ctx (plain_error_reply codec wire notauth)
  unfolding plain_error_reply
  plain_error_reply-IsRejection wire keyring ctx e = record {
    signature = none;
    reply = ground arith;
    signs_iff = λ g. (λ h. cc, λ (name, n, m, k, er, o, f). cc);
  }

  signed_error_reply-IsRejection :
      (wire : Text) (keyring : Dict N K) (error : ℕ) (ctx : TsigWire N)
      → extract_tsig_context codec wire ≡ some ctx
      → IsRejection wire keyring
          (some error)
          ctx
          (signed_error_reply codec wire keyring notauth error)
  unfolding signed_error_reply
  signed_error_reply-IsRejection wire keyring error ctx e = record {
    signature = signature_of codec keyring error ctx;
    reply = ground arith;
    signs_iff = λ g. (
      signature_of_sound keyring error ctx g,
      λ (name, n, m, k, er, o, f). signature_of_complete keyring error ctx g name n m k er o f,
    );
  }

  module _ {W D : Type 0} (dispatch : ChallengeDispatcher N W D) (wire : Text) (keyring : Dict N K)
      (source : String) (s : Gateway W D) where
    abbrev pub Rejected : List Sample → Option ℕ → Handled N K × Gateway W D → Type 0
    Rejected samples error out =
        (out.1 ≡ record s { metrics = s.metrics ++ samples })
        × (((ctx : TsigWire N) × IsContext codec wire ctx
              × IsRejection wire keyring error ctx out.0)
            ⊎ (((ctx : TsigWire N) → ¬ IsContext codec wire ctx) × (out.0 ≡ dropped)))

    answers :
        (error : Option ℕ) (h : Handled N K)
        → (extract_tsig_context codec wire ≡ none → h ≡ dropped)
        → ((ctx : TsigWire N)
            → extract_tsig_context codec wire ≡ some ctx
            → IsRejection wire keyring error ctx h)
        → ((ctx : TsigWire N) × IsContext codec wire ctx × IsRejection wire keyring error ctx h)
          ⊎ (((ctx : TsigWire N) → ¬ IsContext codec wire ctx) × (h ≡ dropped))
    answers error h drops rejects = elim (Option-cases (extract_tsig_context codec wire)) [
      | inl absent ↦ inr (
        λ ctx x. let there = IsContext-extract_tsig_context codec wire ctx x in ground arith,
        drops absent,
      )
      | inr (ctx, there) ↦
          inl (ctx, extract_tsig_context-IsContext codec wire ctx there, rejects ctx there)
    ]

    signed_error_reply_drops :
        (error : ℕ)
        → extract_tsig_context codec wire ≡ none
        → signed_error_reply codec wire keyring notauth error ≡ dropped
    unfolding signed_error_reply
    signed_error_reply_drops error e = ground arith

    plain_error_reply_drops :
        extract_tsig_context codec wire ≡ none → plain_error_reply codec wire notauth ≡ dropped
    unfolding plain_error_reply
    plain_error_reply_drops e = ground arith

    signed_rejects :
        (reason : String) (error : ℕ) (samples : List Sample)
        → record_tsig_failure reason s.metrics ≡ s.metrics ++ samples
        → Rejected samples (some error) (
          signed_error_reply codec wire keyring notauth error,
          record s { metrics = record_tsig_failure reason s.metrics },
        )
    signed_rejects reason error samples e = (
      rw e refl,
      answers (some error) (signed_error_reply codec wire keyring notauth error)
          (signed_error_reply_drops error) (signed_error_reply-IsRejection wire keyring error),
    )

    settle_parse_rejects :
        (outcome : FromWire N) (samples : List Sample) (error : Option ℕ)
        → TsigFailure outcome samples error
        → Rejected samples error (settle_parse codec dispatch wire keyring source outcome s)
    unfolding settle_parse record_tsig_failure
    settle_parse_rejects (parsed msg) samples error f = elim f [ ]
    settle_parse_rejects dns_exception samples error f = elim f [ ]
    settle_parse_rejects unknown_tsig_key samples error unknown = (
      refl,
      answers none (plain_error_reply codec wire notauth) plain_error_reply_drops
          (plain_error_reply-IsRejection wire keyring),
    )
    settle_parse_rejects bad_signature samples error signature =
        signed_rejects "badsig" 16 samples refl
    settle_parse_rejects bad_time samples error time =
        signed_rejects "badtime" 18 samples
          (append_assoc s.metrics (tsig_failures "badtime" ∷ []) (tsig_badtime ∷ []))
    settle_parse_rejects bad_key samples error key = signed_rejects "badkey" 17 samples refl
    settle_parse_rejects bad_algorithm samples error algorithm =
        signed_rejects "badkey" 17 samples refl

    -- The answer to a message that fails TSIG: the failure is counted under its label, a bad time in
    -- its own series too, and nothing else is written. If the octets and the records of the wire
    -- read as a context, the reply is NOTAUTH with the id and the opcode that they hold, and it
    -- carries a TSIG with the error code 16, 17 or 18 of the failure exactly if the keyname and the
    -- MAC were read and the keyring has the key, never for an unknown key. If they read as none,
    -- there is no reply.
    pub process_query_rejects :
        (samples : List Sample) (error : Option ℕ)
        → TsigFailure (codec.from_wire wire keyring) samples error
        → Rejected samples error (process_query codec dispatch wire keyring source s)
    unfolding process_query
    process_query_rejects samples error f =
        settle_parse_rejects (codec.from_wire wire keyring) samples error f
