-- ===== src/DataPlane/Tsig/Keyring.antt =====
-- Which key the keyring has under a name.
use astropath_dns_relay.Prelude.{
  ◌≡◌, ◌≢◌, refl, subst, inl, inr, Option, none, some, List, [], ◌∷◌, Text, ◌==◌, if◌then◌else◌,
  arith, All, Option-cases,
}
use astropath_dns_relay.Prelude.Dict.{Dict, lookup, insert, lookup-insert}
use astropath_dns_relay.Dns.{DnsName, name_eq}
use astropath_dns_relay.DataPlane.Tsig.{Algorithm, TsigKeySpec, key_of, add_keys, build_keyring}

module _ {N K : Type 0} ⦃d : DnsName N⦄ (tsig_key : N → Text → Algorithm → Option K) where
  -- The key of a spec if it has the name, and else another.
  abbrev pub newer : N → Option (N × K) → Option K → Option K
  newer name none found = found
  newer name (some (n, key)) found = if n == name then some key else found

  -- The key of the last spec with a name, and else a given one.
  unfoldable pub last_key : N → List TsigKeySpec → Option K → Option K
  last_key name [] found = found
  last_key name (spec ∷ specs) found = last_key name specs (newer name (key_of tsig_key spec) found)

  -- All specs have a known algorithm, a valid name and a key.
  abbrev pub AreValid : List TsigKeySpec → Type 0
  AreValid = All (λ spec. key_of tsig_key spec ≢ none)

  -- What a keyring is that came of adding specs to another.
  abbrev pub Added : Dict N K → List TsigKeySpec → Option (Dict N K) → Type 0
  Added keyring specs none = ¬ AreValid specs
  Added keyring specs (some keyring') =
      AreValid specs
      × ((name : N) → lookup name keyring' ≡ last_key name specs (lookup name keyring))

  Added-cons :
      (keyring : Dict N K) (spec : TsigKeySpec) (specs : List TsigKeySpec) (name : N) (key : K)
      (out : Option (Dict N K))
      → key_of tsig_key spec ≡ some (name, key)
      → Added (insert name key keyring) specs out
      → Added keyring (spec ∷ specs) out
  unfolding last_key
  Added-cons keyring spec specs name key none e h = λ valid. h valid.1
  Added-cons keyring spec specs name key (some keyring') e (valid, same) = (
    ((λ n. ground arith), valid),
    λ other. ground (arith, same other, lookup-insert name other key keyring),
  )

  add_keys-Added :
      (keyring : Dict N K) (specs : List TsigKeySpec)
      → Added keyring specs (add_keys tsig_key keyring specs)
  unfolding add_keys last_key
  add_keys-Added keyring [] = (tt, λ name. refl)
  add_keys-Added keyring (spec ∷ specs) = elim (Option-cases (key_of tsig_key spec)) [
    | inl e ↦ rw e (λ valid. valid.0 e)
    | inr ((name, key), e) ↦ subst (Added keyring (spec ∷ specs)) (ground arith) (
        Added-cons keyring spec specs name key (add_keys tsig_key (insert name key keyring) specs) e
          (add_keys-Added (insert name key keyring) specs))
  ]

  -- `build_keyring` raises exactly if a spec has an unknown algorithm, an invalid name or a secret
  -- that is no key; otherwise the keyring has, under every spelling of a name, the key of the last
  -- spec of that name, and no other keys.
  pub build_keyring-Added :
      (specs : List TsigKeySpec) → Added [] specs (build_keyring tsig_key specs)
  unfolding build_keyring
  build_keyring-Added specs = add_keys-Added [] specs
