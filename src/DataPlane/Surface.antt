-- ===== src/DataPlane/Surface.antt =====
-- data_plane/dispatcher.py: `zone_from_message`, the write-surface allowlist and the TXT values.
-- Where the source raises `ZoneResolutionError` or `WriteSurfaceViolation`, the model has `none`.
pub mod Laws
use astropath_dns_relay.Prelude.{
  ℕ, Bool, true, false, not, ◌&&◌, Option, none, some, List, [], ◌∷◌, ◌++◌, Text, ltb, length, ◌==◌,
  nat_eq, if◌then◌else◌,
}
use astropath_dns_relay.Prelude.Optional.{◌>>=◌}
use astropath_dns_relay.Dns.{DnsName}
use astropath_dns_relay.DataPlane.Message.{
  Rdata, txt, other, Rrset, UpdateMessage, rdatatype_txt, rdataclass_none, rdataclass_any,
}
use astropath_dns_relay.DataPlane.Routing.{Route}

abbrev pub max_txt_len : ℕ
max_txt_len = 255

pub data Action : Type 0 where
  present cleanup : Action

-- `classify_action`, on `rrset.deleting`; `none` where it raises ValueError
unfoldable pub classify_action : Option ℕ → Option Action
classify_action none = some present
classify_action (some cls) =
    if cls == rdataclass_none
    then some cleanup
    else if cls == rdataclass_any
    then some cleanup
    else none

-- `xs[0]`, where `len(xs)` must be 1
unfoldable pub sole {ℓ} : {A : Type ℓ} → List A → Option A
sole [] = none
sole (x ∷ []) = some x
sole (_ ∷ _ ∷ _) = none

module _ {N : Type 0} ⦃d : DnsName N⦄ where
  unfoldable pub zone_from_message : UpdateMessage N → Option N
  zone_from_message msg = elim msg.zone [ [] ↦ none | z ∷ rest ↦ some (d.canonicalize z) ]

  -- The checks on the single rrset of the UPDATE section.
  unfoldable pub check_rrset : N → Rrset N → Option (Action × Rrset N)
  unfolding classify_action
  check_rrset record_name rrset =
      if not (rrset.rdtype == rdatatype_txt)
      then none
      else if not (d.beq (d.canonicalize rrset.name) record_name)
      then none
      else (do action ← classify_action rrset.deleting; some (action, rrset))

  unfoldable pub validate_write_surface :
      {W : Type 0} → UpdateMessage N → Route N W → Option (Action × Rrset N)
  unfolding check_rrset sole
  validate_write_surface msg route = do rrset ← sole msg.update; check_rrset route.record_name rrset

-- `b"".join(rdata.strings)`
unfoldable pub join : List Text → Text
join [] = []
join (s ∷ rest) = s ++ join rest

unfoldable pub is_ascii : Text → Bool
is_ascii [] = true
is_ascii (c ∷ s) = ltb c 128 && is_ascii s

-- One round of the loop over the rdata.
unfoldable pub token_of : Rdata → Option Text
token_of other = none
token_of (txt strings) =
    let raw = join strings in
    if not (is_ascii raw)
    then none
    else if length raw == 0
    then none
    else if ltb max_txt_len (length raw)
    then none
    else some raw

unfoldable pub tokens_of : List Rdata → Option (List Text)
tokens_of [] = some []
tokens_of (r ∷ rest) = do token ← token_of r; values ← tokens_of rest; some (token ∷ values)

pub no_values : Action → Option (List Text)
no_values cleanup = some []
no_values present = none

unfoldable pub normalize_txt_values : List Rdata → Action → Bool → Option (List Text)
unfolding no_values
normalize_txt_values rdatas action allow_multivalue = elim rdatas [
  | [] ↦ no_values action
  | r ∷ rest ↦
      if ltb 1 (length (r ∷ rest)) && not allow_multivalue then none else tokens_of (r ∷ rest)
]
