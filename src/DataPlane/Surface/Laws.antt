-- ===== src/DataPlane/Surface/Laws.antt =====
-- What the write-surface allowlist and the TXT validation accept, both ways.
use astropath_dns_relay.Prelude.{
  ℕ, Bool, true, false, Option, none, some, List, [], ◌∷◌, Text, length, ◌≡◌, refl, ◌≤◌, ◌<◌, ◌⊎◌,
  ◌↔◌, arith, All, nat_eq,
}
use astropath_dns_relay.Prelude.Optional.{bind-eq-some}
use astropath_dns_relay.Dns.{DnsName}
use astropath_dns_relay.DataPlane.Message.{Rdata, txt, other, Rrset, UpdateMessage}
use astropath_dns_relay.DataPlane.Routing.{Route}
use astropath_dns_relay.DataPlane.Surface.{
  Action, present, cleanup, classify_action, validate_write_surface, check_rrset, join, is_ascii,
  token_of, tokens_of, normalize_txt_values, sole,
}

-- The update class of RFC 2136: IN publishes; NONE (254) and ANY (255) clear.
abbrev pub HasClass : Option ℕ → Action → Type 0
HasClass deleting action =
    (deleting ≡ none) × (action ≡ present)
    ⊎ ((deleting ≡ some 254) ⊎ (deleting ≡ some 255)) × (action ≡ cleanup)

sole_iff {ℓ} : {A : Type ℓ} (xs : List A) (x : A) → (sole xs ≡ some x) ↔ (xs ≡ x ∷ [])
unfolding sole
sole_iff [] x = ground arith
sole_iff (y ∷ []) x = ground arith
sole_iff (y ∷ z ∷ xs) x = ground arith

classify_action_iff : (o : Option ℕ) (a : Action) → (classify_action o ≡ some a) ↔ HasClass o a
unfolding classify_action
classify_action_iff none a = ground arith
classify_action_iff (some n) a = ground arith

module _ {N : Type 0} ⦃d : DnsName N⦄ where
  -- One TXT rrset at the route's own record, of a class that the relay knows.
  abbrev pub IsAllowed : {W : Type 0} → UpdateMessage N → Route N W → Action → Rrset N → Type 0
  IsAllowed msg route action rrset =
      (msg.update ≡ rrset ∷ [])
      × (rrset.rdtype ≡ 16)
      × (d.canonicalize rrset.name ≡ d.canonicalize route.record_name)
      × HasClass rrset.deleting action

  check_rrset_sound :
      (name : N) (r q : Rrset N) (a : Action)
      → check_rrset name r ≡ some (a, q)
      → (r ≡ q)
        × (r.rdtype ≡ 16)
        × (d.canonicalize r.name ≡ d.canonicalize name)
        × HasClass r.deleting a
  unfolding check_rrset
  check_rrset_sound name r q a h =
      ground (arith, d.beq_iff (d.canonicalize r.name) name, d.canonicalize_idem r.name)

  check_rrset_complete :
      (name : N) (r : Rrset N) (a : Action)
      → r.rdtype ≡ 16
      → d.canonicalize r.name ≡ d.canonicalize name
      → HasClass r.deleting a
      → check_rrset name r ≡ some (a, r)
  unfolding check_rrset
  check_rrset_complete name r a h e c =
      ground (arith, d.beq_iff (d.canonicalize r.name) name, d.canonicalize_idem r.name)

  -- `validate_write_surface` returns (action, rrset) exactly for an UPDATE whose only rrset is
  -- `rrset`, a TXT rrset whose owner is the route's record up to case, with an update class of
  -- which `action` is the meaning; every other UPDATE is a violation.
  pub validate_write_surface_iff :
      {W : Type 0} (msg : UpdateMessage N) (route : Route N W) (action : Action) (rrset : Rrset N)
      → (validate_write_surface msg route ≡ some (action, rrset)) ↔ IsAllowed msg route action rrset
  unfolding validate_write_surface
  validate_write_surface_iff msg route action rrset = (sound, complete)
    where
      sound :
          validate_write_surface msg route ≡ some (action, rrset) → IsAllowed msg route action rrset
      sound h =
          let (r, one, checked) =
            bind-eq-some (sole msg.update) (check_rrset route.record_name) h in
          let (same, kind, owner, cls) =
            check_rrset_sound route.record_name r rrset action checked in
          ground (arith, (sole_iff msg.update r).0 one)

      complete :
          IsAllowed msg route action rrset → validate_write_surface msg route ≡ some (action, rrset)
      complete (one, kind, owner, cls) =
          rw ((sole_iff msg.update rrset).1 one)
            (check_rrset_complete route.record_name rrset action kind owner cls)

-- The token of an rdata: the joined character-strings, ASCII, of 1 to 255 characters.
abbrev pub IsToken : Rdata → Text → Type 0
IsToken other token = ⊥
IsToken (txt strings) token =
    (token ≡ join strings) × All (λ c. c < 128) token × (0 < length token) × (length token ≤ 255)

abbrev pub AreTokens : List Rdata → List Text → Type 0
AreTokens [] [] = Unit
AreTokens [] (_ ∷ _) = ⊥
AreTokens (_ ∷ _) [] = ⊥
AreTokens (r ∷ rdatas) (v ∷ values) = IsToken r v × AreTokens rdatas values

is_ascii_iff : (s : Text) → (is_ascii s ≡ true) ↔ All (λ c. c < 128) s
unfolding is_ascii
is_ascii_iff [] = (λ _. tt, λ _. refl)
is_ascii_iff (c ∷ s) = (
  λ h. (ground arith, (is_ascii_iff s).0 (ground arith)),
  λ h. ground (arith, (is_ascii_iff s).1 h.1),
)

token_of_sound : (r : Rdata) (v : Text) → token_of r ≡ some v → IsToken r v
unfolding token_of
token_of_sound other v h = cc
token_of_sound (txt strings) v h =
    let joined : v ≡ join strings = ground arith in
    (joined, rw joined ((is_ascii_iff (join strings)).0 (ground arith)), ground arith, ground arith)

token_of_complete : (r : Rdata) (v : Text) → IsToken r v → token_of r ≡ some v
unfolding token_of
token_of_complete other v h = absurd h
token_of_complete (txt strings) v (e, a, lo, hi) = ground (arith, (is_ascii_iff v).1 a)

tokens_of_iff : (rs : List Rdata) (vs : List Text) → (tokens_of rs ≡ some vs) ↔ AreTokens rs vs
unfolding tokens_of
tokens_of_iff [] [] = ground arith
tokens_of_iff [] (v ∷ vs) = ground arith
tokens_of_iff (r ∷ rs) [] = ground arith
tokens_of_iff (r ∷ rs) (v ∷ vs) = (
  λ h. (token_of_sound r v (ground arith), (tokens_of_iff rs vs).0 (ground arith)),
  λ h. ground (arith, token_of_complete r v h.0, (tokens_of_iff rs vs).1 h.1),
)

length-AreTokens : (rs : List Rdata) (vs : List Text) → AreTokens rs vs → length rs ≡ length vs
length-AreTokens [] [] h = refl
length-AreTokens [] (v ∷ vs) h = absurd h
length-AreTokens (r ∷ rs) [] h = absurd h
length-AreTokens (r ∷ rs) (v ∷ vs) h = omega (arith, length-AreTokens rs vs h.1)

-- `normalize_txt_values` returns `values` exactly if they are the tokens of the rdata, one each
-- and in order (the joined character-strings, ASCII, 1 to 255 characters); there is at most one
-- unless the provider takes several; and there is none only for a cleanup.
pub normalize_txt_values_iff :
    (rdatas : List Rdata) (action : Action) (multi : Bool) (values : List Text)
    → (normalize_txt_values rdatas action multi ≡ some values) ↔ (
        AreTokens rdatas values
        × (multi ≡ false → length values ≤ 1)
        × (values ≡ [] → action ≡ cleanup))
unfolding normalize_txt_values
normalize_txt_values_iff [] present multi [] = ground arith
normalize_txt_values_iff [] cleanup multi [] = ground arith
normalize_txt_values_iff [] present multi (v ∷ values) = ground arith
normalize_txt_values_iff [] cleanup multi (v ∷ values) = ground arith
normalize_txt_values_iff (r ∷ rs) action multi [] =
    (λ h. ground (arith, tokens_of_iff (r ∷ rs) []), ground arith)
normalize_txt_values_iff (r ∷ rs) action multi (v ∷ values) = (
  λ h.
      let tokens : AreTokens (r ∷ rs) (v ∷ values) =
        (tokens_of_iff (r ∷ rs) (v ∷ values)).0 (ground arith) in
      (tokens, λ single. ground (arith, length-AreTokens rs values tokens.1), λ e. cc),
  λ (tokens, few, _).
      ground (
        arith,
        (tokens_of_iff (r ∷ rs) (v ∷ values)).1 tokens,
        length-AreTokens rs values tokens.1,
      ),
)
