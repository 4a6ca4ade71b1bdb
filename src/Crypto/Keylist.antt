-- ===== src/Crypto/Keylist.antt =====
-- The key list as text: what is read from it, and which position an error names.
use astropath_dns_relay.Prelude.{
  ℕ, suc, ◌+◌, true, false, ◌≡◌, ◌≢◌, refl, sym, subst, ap, ◌∙◌, none, some, List, [], ◌∷◌, ◌++◌,
  map, Text, All, length, arith, Option-cases, inl, inr,
}
use mathlib.Core.List.{append-nil}
use astropath_dns_relay.Prelude.Result.{Result, ok, err, ◌>>=◌}
use astropath_dns_relay.Crypto.{
  is_separator, add_entry, entries_of, parse_keylist, KekError, empty, invalid, FernetLibrary,
  build_from, build_fernets, kek_from_keylist,
}

-- A key: not empty, and without a separator.
abbrev pub IsPlain : Text → Type 0
IsPlain s = All (λ c. is_separator c ≡ false) s

abbrev pub IsEntry : Text → Type 0
IsEntry [] = ⊥
IsEntry (c ∷ s) = IsPlain (c ∷ s)

-- What stands between two keys: one separator or more.
abbrev pub IsGap : Text → Type 0
IsGap [] = ⊥
IsGap (c ∷ s) = All (λ c. is_separator c ≡ true) (c ∷ s)

-- The text of a list of keys.
abbrev pub join_keys : Text → List Text → Text
join_keys gap [] = []
join_keys gap (key ∷ []) = key
join_keys gap (key ∷ key' ∷ keys) = key ++ (gap ++ join_keys gap (key' ∷ keys))

-- No first entry.
abbrev no_entry : List Text → Text × List Text
no_entry entries = ([], entries)

entries_of-key :
    (key rest : Text)
    → IsPlain key
    → entries_of (key ++ rest) ≡ (key ++ (entries_of rest).0, (entries_of rest).1)
unfolding entries_of
entries_of-key [] rest h = refl
entries_of-key (c ∷ key) rest h = rw (h.0) (rw (entries_of-key key rest h.1) refl)

entries_of-separators :
    (gap rest : Text)
    → All (λ c. is_separator c ≡ true) gap
    → parse_keylist (gap ++ rest) ≡ parse_keylist rest
unfolding parse_keylist entries_of
entries_of-separators [] rest h = refl
entries_of-separators (c ∷ gap) rest h = rw (h.0) (entries_of-separators gap rest h.1)

entries_of-gap : (gap rest : Text) → IsGap gap → entries_of (gap ++ rest) ≡ ([], parse_keylist rest)
unfolding entries_of parse_keylist
entries_of-gap [] rest h = absurd h
entries_of-gap (c ∷ gap) rest h = rw (h.0) (ap no_entry (entries_of-separators gap rest h.1))

add_entry-IsEntry : (key : Text) (keys : List Text) → IsEntry key → add_entry key keys ≡ key ∷ keys
add_entry-IsEntry [] keys h = absurd h
add_entry-IsEntry (c ∷ key) keys h = refl

IsEntry-IsPlain : (key : Text) → IsEntry key → IsPlain key
IsEntry-IsPlain [] h = absurd h
IsEntry-IsPlain (c ∷ key) h = h

parse_keylist-key :
    (key rest : Text)
    → IsEntry key
    → (entries_of rest).0 ≡ []
    → parse_keylist (key ++ rest) ≡ key ∷ (entries_of rest).1
unfolding parse_keylist
parse_keylist-key key rest h e =
    rw (entries_of-key key rest (IsEntry-IsPlain key h))
      (rw e (rw (append-nil key) (add_entry-IsEntry key (entries_of rest).1 h)))

-- The keys of a list are read back in order, whatever separators stand between them.
pub parse_keylist-join_keys :
    (gap : Text) (keys : List Text)
    → IsGap gap
    → All IsEntry keys
    → parse_keylist (join_keys gap keys) ≡ keys
unfolding parse_keylist entries_of
parse_keylist-join_keys gap [] g h = refl
parse_keylist-join_keys gap (key ∷ []) g h =
    ap parse_keylist (sym (append-nil key)) ∙ parse_keylist-key key [] h.0 refl
parse_keylist-join_keys gap (key ∷ key' ∷ keys) g h =
    let rest = join_keys gap (key' ∷ keys) in
    let gapped = entries_of-gap gap rest g in
    parse_keylist-key key (gap ++ rest) h.0 (ap (λ (x : Text × List Text). x.0) gapped)
    ∙ ap (λ (x : Text × List Text). key ∷ x.1) gapped
    ∙ ap (λ (x : List Text). key ∷ x) (parse_keylist-join_keys gap (key' ∷ keys) g h.1)

module _ {F M T : Type 0} (lib : FernetLibrary F M T) where
  -- The keys built from a position on: all of them, in order, or the position of the first key that
  -- is not valid.
  abbrev pub Built : ℕ → List Text → Result KekError (List F) → Type 0
  Built index keys (ok fernets) = map lib.fernet keys ≡ map (λ (f : F). some f) fernets
  Built index keys (err empty) = ⊥
  Built index keys (err (invalid i)) =
      (valid : List Text) × (bad : Text) × (rest : List Text) × (keys ≡ valid ++ bad ∷ rest)
      × (index + length valid ≡ i)
      × All (λ key. lib.fernet key ≢ none) valid
      × (lib.fernet bad ≡ none)

  Built-cons :
      (index : ℕ) (key : Text) (keys : List Text) (f : F) (out : Result KekError (List F))
      → lib.fernet key ≡ some f
      → Built (suc index) keys out
      → Built index (key ∷ keys) (out >>= λ fernets. ok (f ∷ fernets))
  Built-cons index key keys f (ok fernets) e h = ground (arith, e)
  Built-cons index key keys f (err empty) e h = h
  Built-cons index key keys f (err (invalid i)) e (valid, bad, rest, same, count, good, none_) = (
    key ∷ valid,
    bad,
    rest,
    ap (λ (x : List Text). key ∷ x) same,
    omega (arith, count),
    ((λ n. ground arith), good),
    none_,
  )

  build_from-Built : (index : ℕ) (keys : List Text) → Built index keys (build_from lib index keys)
  unfolding build_from
  build_from-Built index [] = refl
  build_from-Built index (key ∷ keys) = elim (Option-cases (lib.fernet key)) [
    | inl e ↦
        let stopped : build_from lib index (key ∷ keys) ≡ err (invalid index) = ground arith in
        subst (Built index (key ∷ keys)) (sym stopped) ([], key, keys, refl, omega arith, tt, e)
    | inr (f, e) ↦
        let next : build_from lib index (key ∷ keys)
            ≡ (build_from lib (suc index) keys >>= λ fernets. ok (f ∷ fernets)) =
          ground arith in
        subst (Built index (key ∷ keys)) (sym next) (
          Built-cons index key keys f (build_from lib (suc index) keys) e
            (build_from-Built (suc index) keys))
  ]

  -- The result of reading a key list.
  abbrev pub KekOutcome : List Text → Result KekError M → Type 0
  KekOutcome keys (ok kek) =
      (fernets : List F) × (keys ≢ [])
      × Built 0 keys (ok fernets)
      × (kek ≡ lib.multi_fernet fernets)
  KekOutcome keys (err empty) = keys ≡ []
  KekOutcome keys (err (invalid i)) = Built 0 keys (err (invalid i))

  settle_kek :
      (key : Text) (keys : List Text) (out : Result KekError (List F))
      → Built 0 (key ∷ keys) out
      → KekOutcome (key ∷ keys) (out >>= λ fernets. ok (lib.multi_fernet fernets))
  settle_kek key keys (ok fernets) h = (fernets, (λ e. cc), h, refl)
  settle_kek key keys (err empty) h = absurd h
  settle_kek key keys (err (invalid i)) h = h

  keys-KekOutcome :
      (keys : List Text)
      → KekOutcome keys (build_fernets lib keys >>= λ fernets. ok (lib.multi_fernet fernets))
  unfolding build_fernets
  keys-KekOutcome [] = refl
  keys-KekOutcome (key ∷ keys) =
      settle_kek key keys (build_from lib 0 (key ∷ keys)) (build_from-Built 0 (key ∷ keys))

  -- `Kek.from_keylist` builds the `MultiFernet` of all keys of the list, in their order, if there is
  -- one and all are valid; otherwise it raises: for an empty list as such, or with the position of
  -- the first key that is not valid.
  pub kek_from_keylist-KekOutcome :
      (raw : Text) → KekOutcome (parse_keylist raw) (kek_from_keylist lib raw)
  unfolding kek_from_keylist
  kek_from_keylist-KekOutcome raw = keys-KekOutcome (parse_keylist raw)
