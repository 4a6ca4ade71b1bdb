-- ===== src/Providers/Hurricane/Records.antt =====
-- The per-record keys: one key for all spellings of a record name.
use mathlib.Core.List.{reverse, reverse-reverse, reverse-cons}
use astropath_dns_relay.Prelude.{
  ℕ, true, ◌≡◌, refl, sym, ap, ◌∙◌, some, [], ◌∷◌, ◌++◌, Text, lower, lower_code, lower_idem,
  lstrip, text_eq, text_beq, text_beq_iff, arith, ◌==◌, if◌then◌else◌,
}
use astropath_dns_relay.Prelude.Dict.{lookup, lookup-insert}
use astropath_dns_relay.Providers.Hurricane.{
  Hurricane, normalize_record, register_record_key, key_for,
}

lstrip_idem : (d : ℕ) (s : Text) → lstrip d (lstrip d s) ≡ lstrip d s
unfolding lstrip
lstrip_idem d [] = refl
lstrip_idem d (c ∷ s) = ground (arith, lstrip_idem d s)

-- Lowering the letters neither makes nor removes a dot.
lstrip-lower : (s : Text) → lstrip b'.' (lower s) ≡ lower (lstrip b'.' s)
unfolding lstrip lower lower_code
lstrip-lower [] = refl
lstrip-lower (c ∷ s) = ground (arith, lstrip-lower s)

lower-append : (s t : Text) → lower (s ++ t) ≡ lower s ++ lower t
unfolding lower
lower-append [] t = refl
lower-append (c ∷ s) t = ap (◌∷◌ (lower_code c)) (lower-append s t)

lower-reverse : (s : Text) → lower (reverse s) ≡ reverse (lower s)
unfolding lower
lower-reverse [] = refl
lower-reverse (c ∷ s) =
    ap lower (reverse-cons c s)
    ∙ lower-append (reverse s) (c ∷ [])
    ∙ ap (λ (t : Text). t ++ lower_code c ∷ []) (lower-reverse s)
    ∙ sym (reverse-cons (lower_code c) (lower s))

normalize_record_lem : (s : Text) → normalize_record s ≡ lower (reverse (lstrip b'.' (reverse s)))
unfolding normalize_record
normalize_record_lem s = refl

normalize_record_idem : (s : Text) → normalize_record (normalize_record s) ≡ normalize_record s
normalize_record_idem s =
    let x : Text = lstrip b'.' (reverse s) in
    rw normalize_record_lem (
      rw normalize_record_lem
        (simp (← lower-reverse, reverse-reverse, lstrip-lower, lstrip_idem, lower_idem)))

-- After `register_record_key`, the key is found under every name with the same normal form (letter
-- case and trailing dots do not count), in particular the normal form itself, and the keys of all
-- other names are as before.
pub key_for-register_record_key :
    (name other key : Text) (h : Hurricane)
    → (key_for (register_record_key name key h) other
        ≡ (if normalize_record name == normalize_record other then some key else key_for h other))
      × (key_for (register_record_key name key h) (normalize_record name) ≡ some key)
unfolding key_for register_record_key
key_for-register_record_key name other key h =
    let n = normalize_record name in
    let same : text_beq n (normalize_record n) ≡ true =
      (text_beq_iff n (normalize_record n)).1 (sym (normalize_record_idem name)) in
    (
      lookup-insert n (normalize_record other) key h.record_keys,
      lookup-insert n (normalize_record n) key h.record_keys
          ∙ ap (λ b. if b then some key else lookup (normalize_record n) h.record_keys) same,
    )
