-- ===== src/Providers/Route53.antt =====
-- providers/route53.py: the AWS Route 53 provider over a client that the program only calls.
pub mod Quote
pub mod Zone
pub mod Writes
use mathlib.Core.Option
use astropath_dns_relay.Prelude.{
  ℕ, zero, suc, Bool, true, false, not, ◌&&◌, String, Option, none, some, List, [], ◌∷◌, ◌++◌, map,
  Text, codes, lower, rstrip, keep, contains, text_eq, string_eq, nat_eq, ◌==◌, if◌then◌else◌,
}
use astropath_dns_relay.Providers.Base.{
  Message, lit, quoted, shown, named, Reply, done, provider_error, crashed, Provider,
}

-- What a botocore call returns, or the type of the `ClientError` or `BotoCoreError` that it raises.
pub data Call (A : Type 0) : Type 0 where
  answered : A → Call A
  failed : String → Call A

pub record RecordSet : Type 0 where
  pub kind : String
  pub name : Text
  pub ttl : Option ℕ
  pub values : List Text

pub data Change : Type 0 where
  upsert delete : Change

-- The client of one hosted zone: the three calls that the provider makes, and `get_hosted_zone`.
pub record Client (W : Type 0) : Type 0 where
  pub list_resource_record_sets : Text → W → Call (List RecordSet) × W
  pub change_resource_record_sets : Change → Text → ℕ → List Text → W → Call Text × W
  pub get_change : Text → W → Call String × W
  pub get_hosted_zone : W → Call (Unit {0}) × W

pub record Route53 : Type 0 where
  pub hosted_zone_id : Text
  pub ttl : ℕ
  pub await_insync : Bool
  pub insync_max_attempts : ℕ

abbrev pub txt_ttl : ℕ
txt_ttl = 60

abbrev pub default_insync_attempts : ℕ
default_insync_attempts = 30

-- `from_config`, on the parsed configuration
abbrev pub route53_init : Text → Bool → Route53
route53_init hosted_zone_id await_insync = record {
  hosted_zone_id = hosted_zone_id;
  ttl = txt_ttl;
  await_insync = await_insync;
  insync_max_attempts = default_insync_attempts;
}

-- `_normalize_name`
unfoldable pub normalize_name : Text → Text
normalize_name record_name = lower (rstrip b'.' record_name) ++ b'.' ∷ []

-- `s.replace(c, r)` for one character `c`
unfoldable pub replace : ℕ → Text → Text → Text
replace c r [] = []
replace c r (x ∷ s) = if x == c then r ++ replace c r s else x ∷ replace c r s

-- `_quote`: 92 is the backslash and 34 the double quote
unfoldable pub quote : Text → Text
unfolding replace
quote token = 34 ∷ replace 34 (92 ∷ 34 ∷ []) (replace 92 (92 ∷ 92 ∷ []) token) ++ 34 ∷ []

-- `_record_values`
abbrev pub record_values : Option RecordSet → List Text
record_values none = []
record_values (some r) = r.values

-- The loop of `_read_rrset` over the sets of the answer.
unfoldable pub find_txt : Text → List RecordSet → Option RecordSet
find_txt name [] = none
find_txt name (r ∷ sets) =
    if r.kind == "TXT" && normalize_name r.name == name then some r else find_txt name sets

-- The loop of `present` that merges the new values.
unfoldable pub merge : List Text → List Text → List Text
merge merged [] = merged
merge merged (v ∷ values) = merge (if contains merged v then merged else merged ++ v ∷ []) values

-- `[v for v in current if v not in remove]`
unfoldable pub remaining : List Text → List Text → List Text
unfolding keep contains
remaining current remove = keep (λ v. not (contains remove v)) current

unfoldable pub values_eq : List Text → List Text → Bool
values_eq [] [] = true
values_eq [] (_ ∷ _) = false
values_eq (_ ∷ _) [] = false
values_eq (a ∷ s) (b ∷ t) = a == b && values_eq s t

abbrev pub change_name : Change → String
change_name upsert = "UPSERT"
change_name delete = "DELETE"

module _ {W : Type 0} (cfg : Route53) (client : Client W) where
  -- `_wait_insync`, with the polls that are left; the sleeps between polls have no effect here.
  unfoldable pub wait_insync : ℕ → Text → W → Reply × W
  wait_insync zero change_id w = (
    provider_error (
        lit "route53 change "
        ∷ quoted change_id
        ∷ lit " not INSYNC after "
        ∷ shown cfg.insync_max_attempts
        ∷ lit " polls"
        ∷ []),
    w,
  )
  wait_insync (suc polls) change_id w =
      let (answer, w') = client.get_change change_id w in
      let again = wait_insync polls change_id w' in
      elim answer [
        | failed kind ↦ (provider_error (lit "route53 GetChange failed: " ∷ named kind ∷ []), w')
        | answered status ↦ if status == "INSYNC" then (done, w') else again
      ]

  unfoldable pub change : Change → Text → ℕ → List Text → W → Reply × W
  change action name ttl values w =
      let (answer, w') = client.change_resource_record_sets action name ttl values w in
      elim answer [
        | failed kind ↦ (
          provider_error (
              lit "route53 "
              ∷ named (change_name action)
              ∷ lit " failed for "
              ∷ quoted name
              ∷ lit ": "
              ∷ named kind
              ∷ []),
          w',
        )
        | answered change_id ↦
            if cfg.await_insync
            then wait_insync cfg.insync_max_attempts change_id w'
            else (done, w')
      ]

  -- `present` after the read
  unfoldable pub publish : Text → List Text → Option RecordSet → W → Reply × W
  publish name new_values existing w =
      let current = record_values existing in
      let merged = merge current new_values in
      if values_eq merged current then (done, w) else change upsert name cfg.ttl merged w

  -- `cleanup` after the read of an rrset, for the values that stay
  unfoldable pub reduce : Text → RecordSet → List Text → W → Reply × W
  reduce name existing [] w =
      change delete name (Option.get_or existing.ttl cfg.ttl) existing.values w
  reduce name existing (v ∷ values) w = change upsert name cfg.ttl (v ∷ values) w

  unfoldable pub clear : Text → List Text → Option RecordSet → W → Reply × W
  clear name values none w = (done, w)
  clear name [] (some existing) w = reduce name existing [] w
  clear name (v ∷ values) (some existing) w =
      let stay = remaining existing.values (map quote (v ∷ values)) in
      if values_eq stay existing.values then (done, w) else reduce name existing stay w

  -- `_read_rrset`, and then `rest`; a failure of the read is the operation's.
  unfoldable pub with_rrset : Text → (Option RecordSet → W → Reply × W) → W → Reply × W
  with_rrset name rest w =
      let (answer, w') = client.list_resource_record_sets name w in
      elim answer [
        | failed kind ↦
            (provider_error (lit "route53 ListResourceRecordSets failed: " ∷ named kind ∷ []), w')
        | answered sets ↦ rest (find_txt name sets) w'
      ]

  unfoldable pub present : Text → Text → List Text → W → Reply × W
  present zone record_name values w =
      let name = normalize_name record_name in with_rrset name (publish name (map quote values)) w

  unfoldable pub cleanup : Text → Text → List Text → W → Reply × W
  cleanup zone record_name values w =
      let name = normalize_name record_name in with_rrset name (clear name values) w

  unfoldable pub validate : W → Reply × W
  validate w =
      let (answer, w') = client.get_hosted_zone w in
      elim answer [
        | answered _ ↦ (done, w')
        | failed kind ↦ (
          provider_error (
              lit "route53 GetHostedZone failed for zone "
              ∷ quoted cfg.hosted_zone_id
              ∷ lit ": "
              ∷ named kind
              ∷ []),
          w',
        )
      ]

  abbrev pub route53_provider : Provider W
  route53_provider = record {
    kind = "route53";
    supports_multivalue = true;
    present = present;
    cleanup = cleanup;
    validate = validate;
  }
