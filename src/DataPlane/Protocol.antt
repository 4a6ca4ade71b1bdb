-- ===== src/DataPlane/Protocol.antt =====
-- data_plane/protocol.py: from the bytes of a DNS message to the reply. The parsing and the TSIG
-- verification of dnspython are a parameter, `Codec`. Encoding a reply is dnspython's too, so the
-- model ends at the reply that is encoded. The scope of the correlation id is in Correlation.
pub mod Context
pub mod Gate
use astropath_dns_relay.Prelude.{
  ℕ, zero, suc, ◌+◌, ◌*◌, ◌/◌, ◌%◌, Bool, true, false, not, String, Option, none, some, List, [],
  ◌∷◌, Text, ◌==◌, nat_eq, if◌then◌else◌,
}
use astropath_dns_relay.Prelude.Optional.{◌>>=◌}
use astropath_dns_relay.Prelude.Dict.{Dict, lookup}
use astropath_dns_relay.Dns.{DnsName, name_eq}
use astropath_dns_relay.Observability.{
  record_tsig_failure, tsig_absent, tsig_badsig, tsig_badkey, reason_badtime, tsig_unknownkey,
}
use astropath_dns_relay.DataPlane.Message.{Rcode, notauth, refused, UpdateMessage}
use astropath_dns_relay.DataPlane.Dispatcher.{Answer, replied, raised, Gateway}

abbrev pub opcode_update : ℕ
opcode_update = 5

abbrev pub rdatatype_tsig : ℕ
rdatatype_tsig = 250

abbrev pub badsig : ℕ
badsig = 16

abbrev pub badkey : ℕ
badkey = 17

abbrev pub badtime : ℕ
badtime = 18

-- A parsed message. `update` is none unless it is an `UpdateMessage`.
pub record Inbound (N : Type 0) : Type 0 where
  pub id : ℕ
  pub had_tsig : Bool
  pub opcode : ℕ
  pub update : Option (UpdateMessage N)

-- `dns.message.from_wire`: a message, or the exceptions that the pipeline tells apart. A message
-- is returned with `had_tsig` only if its signature was verified.
pub data FromWire (N : Type 0) : Type 0 where
  parsed : Inbound N → FromWire N
  unknown_tsig_key bad_signature bad_time bad_key bad_algorithm dns_exception : FromWire N

-- dnspython: `from_wire`, and the operations of `dns.wire.Parser` on a cursor `C` of the model,
-- none where they raise. `restrict` enters `restrict_to` and `release` leaves it; `get_tsig` reads
-- an rdata of a class, and returns its MAC if it is a TSIG.
pub record Codec (N K C : Type 0) : Type 0 where
  pub from_wire : Text → Dict N K → FromWire N
  pub cursor : Text → C
  pub get_bytes : ℕ → C → Option (List ℕ × C)
  pub get_name : C → Option (N × C)
  pub get_u16 : C → Option (ℕ × C)
  pub get_u32 : C → Option (ℕ × C)
  pub restrict : ℕ → C → Option C
  pub release : C → C → Option C
  pub get_tsig : ℕ → C → Option (Option (List ℕ) × C)

-- `_TsigWire`
pub record TsigWire (N : Type 0) : Type 0 where
  pub id : ℕ
  pub opcode : ℕ
  pub keyname : Option N
  pub mac : Option (List ℕ)

-- The TSIG record that signs a reply.
pub record Signature (K : Type 0) : Type 0 where
  pub key : K
  pub fudge : ℕ
  pub original_id : ℕ
  pub tsig_error : ℕ
  pub request_mac : List ℕ

-- A reply before it is encoded: one built from the wire alone, or `make_response` of a message,
-- which signs it if the message was verified.
pub data Response (N K : Type 0) : Type 0 where
  from_ctx : (id opcode : ℕ) → Rcode → Option (Signature K) → Response N K
  response_to : Inbound N → Rcode → Response N K

-- A reply, no reply, or an exception of the dispatcher.
pub data Handled (N K : Type 0) : Type 0 where
  answer : Response N K → Handled N K
  dropped escaped : Handled N K

-- The protocol class `ChallengeDispatcher`
abbrev pub ChallengeDispatcher : Type 0 → Type 0 → Type 0 → Type 0
ChallengeDispatcher N W D = UpdateMessage N → String → Gateway W D → Answer × Gateway W D

-- `struct.unpack("!HHHHHH", …)`
unpack_header : List ℕ → Option (List ℕ)
unpack_header [] = some []
unpack_header (hi ∷ []) = none
unpack_header (hi ∷ lo ∷ rest) = do words ← unpack_header rest; some ((hi * 256 + lo) ∷ words)

-- The id, the flags, the count of questions and that of all other records.
unfoldable pub header : List ℕ → Option (ℕ × ℕ × ℕ × ℕ)
unfolding unpack_header
header bytes = do
  words ← unpack_header bytes
  elim words [ id ∷ flags ∷ qd ∷ an ∷ ns ∷ ar ∷ [] ↦ some (id, flags, qd, an + ns + ar) | _ ↦ none ]

module _ {N K C : Type 0} ⦃d : DnsName N⦄ (codec : Codec N K C) where
  unfoldable pub skip_questions : ℕ → C → Option C
  skip_questions zero c = some c
  skip_questions (suc count) c = do
    (name, c) ← codec.get_name c
    (rdtype, c) ← codec.get_u16 c
    (rdclass, c) ← codec.get_u16 c
    skip_questions count c

  -- The keyname and the MAC after an rdata that was read as a TSIG.
  abbrev pub note_tsig :
      N → Option (List ℕ) → Option N × Option (List ℕ) → Option N × Option (List ℕ)
  note_tsig name none found = found
  note_tsig name (some mac) found = (some name, some mac)

  -- The body of `with parser.restrict_to(rdlen)`.
  unfoldable pub read_rdata :
      N
      → (rdtype rdclass rdlen : ℕ) → Option N × Option (List ℕ)
      → C
      → Option ((Option N × Option (List ℕ)) × C)
  read_rdata name rdtype rdclass rdlen found c =
      if rdtype == rdatatype_tsig
      then (do (mac, c) ← codec.get_tsig rdclass c; some (note_tsig name mac found, c))
      else (do (_, c) ← codec.get_bytes rdlen c; some (found, c))

  unfoldable pub read_records :
      ℕ → Option N × Option (List ℕ) → C → Option (Option N × Option (List ℕ))
  read_records zero found c = some found
  read_records (suc count) found c = do
    (name, c) ← codec.get_name c
    (rdtype, c) ← codec.get_u16 c
    (rdclass, c) ← codec.get_u16 c
    (ttl, c) ← codec.get_u32 c
    (rdlen, c) ← codec.get_u16 c
    inner ← codec.restrict rdlen c
    (found', inner) ← read_rdata name rdtype rdclass rdlen found inner
    c ← codec.release c inner
    read_records count found' c

  -- `_extract_tsig_context`
  unfoldable pub extract_tsig_context : Text → Option (TsigWire N)
  unfolding header skip_questions read_rdata read_records
  extract_tsig_context wire = do
    (bytes, c) ← codec.get_bytes 12 (codec.cursor wire)
    (id, flags, qd, others) ← header bytes
    c ← skip_questions qd c
    (keyname, mac) ← read_records others (none, none) c
    some (record { id = id; opcode = flags / 2048 % 16; keyname = keyname; mac = mac })

  -- `_reply_from_ctx`, with the signature that `use_tsig` puts on it
  abbrev pub reply_from_ctx : TsigWire N → Rcode → Option (Signature K) → Response N K
  reply_from_ctx ctx rcode signature = from_ctx ctx.id ctx.opcode rcode signature

  unfoldable pub plain_error_reply : Text → Rcode → Handled N K
  plain_error_reply wire rcode = elim (extract_tsig_context wire) [
    | none ↦ dropped
    | some ctx ↦ answer (reply_from_ctx ctx rcode none)
  ]

  -- The key and the MAC for the signature, if both are known.
  unfoldable pub signature_of : Dict N K → ℕ → TsigWire N → Option (Signature K)
  signature_of keyring tsig_error ctx = do
    keyname ← ctx.keyname
    mac ← ctx.mac
    key ← lookup keyname keyring
    some (record {
      key = key;
      fudge = 300;
      original_id = ctx.id;
      tsig_error = tsig_error;
      request_mac = mac;
    })

  unfoldable pub signed_error_reply : Text → Dict N K → Rcode → ℕ → Handled N K
  unfolding signature_of
  signed_error_reply wire keyring rcode tsig_error = elim (extract_tsig_context wire) [
    | none ↦ dropped
    | some ctx ↦ answer (reply_from_ctx ctx rcode (signature_of keyring tsig_error ctx))
  ]

  unfoldable pub reply_with : Inbound N → Answer → Handled N K
  reply_with msg (replied rcode) = answer (response_to msg rcode)
  reply_with msg raised = escaped

  module _ {W D : Type 0} where
    abbrev pub count_tsig_failure : String → Gateway W D → Gateway W D
    count_tsig_failure reason s = record s { metrics = record_tsig_failure reason s.metrics }

    -- `_process_query` after the auth gate and the test of the opcode
    unfoldable pub hand_over :
        ChallengeDispatcher N W D
        → String
        → Inbound N
        → Option (UpdateMessage N)
        → Gateway W D
        → Handled N K × Gateway W D
    unfolding reply_with
    hand_over dispatch source msg none s = (escaped, s)
    hand_over dispatch source msg (some update) s =
        let (rcode, s') = dispatch update source s in (reply_with msg rcode, s')

    unfoldable pub route_message :
        ChallengeDispatcher N W D → String → Inbound N → Gateway W D → Handled N K × Gateway W D
    unfolding hand_over
    route_message dispatch source msg s =
        if not msg.had_tsig
        then (answer (response_to msg notauth), count_tsig_failure tsig_absent s)
        else if not (msg.opcode == opcode_update)
        then (answer (response_to msg refused), s)
        else hand_over dispatch source msg msg.update s

    unfoldable pub settle_parse :
        ChallengeDispatcher N W D
        → Text
        → Dict N K
        → String
        → FromWire N
        → Gateway W D
        → Handled N K × Gateway W D
    unfolding route_message
    settle_parse dispatch wire keyring source outcome s = elim outcome [
      | parsed msg ↦ route_message dispatch source msg s
      | unknown_tsig_key ↦ (plain_error_reply wire notauth, count_tsig_failure tsig_unknownkey s)
      | bad_signature ↦
          (signed_error_reply wire keyring notauth badsig, count_tsig_failure tsig_badsig s)
      | bad_time ↦
          (signed_error_reply wire keyring notauth badtime, count_tsig_failure reason_badtime s)
      | bad_key ↦ (signed_error_reply wire keyring notauth badkey, count_tsig_failure tsig_badkey s)
      | bad_algorithm ↦
          (signed_error_reply wire keyring notauth badkey, count_tsig_failure tsig_badkey s)
      | dns_exception ↦ (dropped, s)
    ]

    -- `_process_query`
    unfoldable pub process_query :
        ChallengeDispatcher N W D
        → Text
        → Dict N K
        → String
        → Gateway W D
        → Handled N K × Gateway W D
    unfolding settle_parse
    process_query dispatch wire keyring source s =
        settle_parse dispatch wire keyring source (codec.from_wire wire keyring) s
