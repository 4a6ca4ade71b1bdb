-- ===== src/DataPlane/Tsig/Algorithms.antt =====
-- Which spellings of an algorithm are accepted.
use astropath_dns_relay.Prelude.{
  true, ◌≡◌, ◌⊎◌, inl, inr, ◌↔◌, refl, ap, ◌∙◌, some, List, [], ◌∷◌, ◌++◌, Text, codes, lower,
  rstrip, drop, contains, nat_eq, text_eq, text_beq, text_beq_iff, ◌==◌, arith, Bool-cases,
  Option-cases, All,
}
use astropath_dns_relay.Prelude.Dict.{lookup}
use astropath_dns_relay.DataPlane.Tsig.{
  Algorithm, hmac_sha256, hmac_sha384, hmac_sha512, hmac_sha224, hmac_sha1, hmac_md5,
  supported_algorithms, strip, is_supported, starts_with_hmac, add_dash, normalize_algorithm,
  algorithm_from_text,
}

-- What follows the prefix of an algorithm's name.
abbrev pub suffix : Algorithm → Text
suffix hmac_sha256 = codes "sha256"
suffix hmac_sha384 = codes "sha384"
suffix hmac_sha512 = codes "sha512"
suffix hmac_sha224 = codes "sha224"
suffix hmac_sha1 = codes "sha1"
suffix hmac_md5 = codes "md5"

-- The wire form, and the spelling without the dash.
abbrev pub dashed : Algorithm → Text
dashed a = codes "hmac-" ++ suffix a

abbrev pub dashless : Algorithm → Text
dashless a = codes "hmac" ++ suffix a

lookup-dashed : (a : Algorithm) → lookup (dashed a) supported_algorithms ≡ some a
unfolding lookup text_beq
lookup-dashed hmac_sha256 = refl
lookup-dashed hmac_sha384 = refl
lookup-dashed hmac_sha512 = refl
lookup-dashed hmac_sha224 = refl
lookup-dashed hmac_sha1 = refl
lookup-dashed hmac_md5 = refl

-- Every entry of a table under the name of its algorithm.
abbrev AreNamed : List (Text × Algorithm) → Type 0
AreNamed = All (λ (b : Text × Algorithm). b.0 ≡ dashed b.1)

lookup-AreNamed :
    (n : Text) (a : Algorithm) (table : List (Text × Algorithm))
    → AreNamed table
    → lookup n table ≡ some a
    → n ≡ dashed a
unfolding lookup
lookup-AreNamed n a [] h e = cc
lookup-AreNamed n a ((k, v) ∷ table) h e = elim (Bool-cases (k == n)) [
  | inl same ↦ ground (arith, text_beq_iff k n, h.0)
  | inr other ↦ lookup-AreNamed n a table h.1 (ground arith)
]

lookup-supported :
    (n : Text) (a : Algorithm) → lookup n supported_algorithms ≡ some a → n ≡ dashed a
lookup-supported n a e =
    lookup-AreNamed n a supported_algorithms (refl, (refl, (refl, (refl, (refl, (refl, tt)))))) e

is_supported_lem : (n : Text) → is_supported n ≡ true → (a : Algorithm) × (n ≡ dashed a)
unfolding is_supported
is_supported_lem n h = elim (Option-cases (lookup n supported_algorithms)) [
  | inl e ↦ absurd (ground arith)
  | inr (a, e) ↦ (a, lookup-supported n a e)
]

add_dash-dashed : (a : Algorithm) → add_dash (dashed a) ≡ dashed a
unfolding add_dash is_supported lookup text_beq
add_dash-dashed hmac_sha256 = refl
add_dash-dashed hmac_sha384 = refl
add_dash-dashed hmac_sha512 = refl
add_dash-dashed hmac_sha224 = refl
add_dash-dashed hmac_sha1 = refl
add_dash-dashed hmac_md5 = refl

add_dash-dashless : (a : Algorithm) → add_dash (dashless a) ≡ dashed a
unfolding add_dash is_supported lookup text_beq starts_with_hmac contains
add_dash-dashless hmac_sha256 = refl
add_dash-dashless hmac_sha384 = refl
add_dash-dashless hmac_sha512 = refl
add_dash-dashless hmac_sha224 = refl
add_dash-dashless hmac_sha1 = refl
add_dash-dashless hmac_md5 = refl

-- Dropping the prefix and putting the dashed one before it makes a dashed name only of a dashless one.
undash :
    (n : Text) (a : Algorithm)
    → starts_with_hmac n ≡ true
    → codes "hmac-" ++ drop 4 n ≡ dashed a
    → n ≡ dashless a
unfolding starts_with_hmac
undash (w ∷ x ∷ y ∷ z ∷ s) a h e =
    let prefix = (text_beq_iff (w ∷ x ∷ y ∷ z ∷ []) (codes "hmac")).0 h in
    let rest : s ≡ suffix a = ap (drop 5) e in
    ap (λ (t : Text). t ++ s) prefix ∙ ap (λ (t : Text). codes "hmac" ++ t) rest
undash [] a h e = cc
undash (w ∷ []) a h e = cc
undash (w ∷ x ∷ []) a h e = cc
undash (w ∷ x ∷ y ∷ []) a h e = cc

add_dash_sound :
    (n : Text) (a : Algorithm) → add_dash n ≡ dashed a → (n ≡ dashed a) ⊎ (n ≡ dashless a)
unfolding add_dash
add_dash_sound n a e = elim (Bool-cases (is_supported n)) [
  | inl known ↦ inl (ground arith)
  | inr unknown ↦ ground (arith, undash n a)
]

-- `algorithm_from_text` accepts, for each algorithm, its dashed wire name and the spelling without
-- the dash, up to letter case, trailing dots and white space around, and no other text.
pub algorithm_from_text_iff :
    (text : Text) (a : Algorithm)
    → let n = lower (rstrip b'.' (strip text)) in
      (algorithm_from_text text ≡ some a) ↔ ((n ≡ dashed a) ⊎ (n ≡ dashless a))
unfolding algorithm_from_text normalize_algorithm
algorithm_from_text_iff text a =
    let n = lower (rstrip b'.' (strip text)) in
    (
      λ h. add_dash_sound n a (lookup-supported (add_dash n) a h),
      λ h. elim h [
        | inl e ↦ rw (e, add_dash-dashed a) (lookup-dashed a)
        | inr e ↦ rw (e, add_dash-dashless a) (lookup-dashed a)
      ],
    )
