-- ===== src/Providers/Route53/Quote.antt =====
-- `_quote` loses nothing: distinct tokens are distinct Route 53 values.
use mathlib.Core.Option
use astropath_dns_relay.Prelude.{
  Bool, true, false, ◌≡◌, refl, sym, ap, ◌∙◌, Option, none, some, [], ◌∷◌, ◌++◌, Text, nat_eq, ◌==◌,
  if◌then◌else◌, arith, Bool-cases, inl, inr,
}
use mathlib.Core.Option.{some-injective}
use astropath_dns_relay.Providers.Route53.{replace, quote}

-- The character-string that a quoted value denotes: a backslash takes the next character as it
-- is, and the closing quote ends the value.
unfoldable pub read_quoted : Bool → Text → Option Text
read_quoted escaped [] = none
read_quoted true (c ∷ s) = Option.map (λ t. c ∷ t) (read_quoted false s)
read_quoted false (c ∷ s) =
    let next = read_quoted true s in
    let plain = Option.map (λ t. c ∷ t) (read_quoted false s) in
    if c == 92 then next else if c == 34 then elim s [ [] ↦ some [] | _ ∷ _ ↦ none ] else plain

abbrev pub escape : Text → Text
escape token = replace 34 (92 ∷ 34 ∷ []) (replace 92 (92 ∷ 92 ∷ []) token)

read_quoted-escape : (t : Text) → read_quoted false (escape t ++ 34 ∷ []) ≡ some t
unfolding read_quoted replace
read_quoted-escape [] = refl
read_quoted-escape (c ∷ t) = elim (Bool-cases (c == 92)) [
  | inl e ↦ ground (arith, read_quoted-escape t)
  | inr e ↦ ground (arith, read_quoted-escape t)
]

-- The reading of a whole value: an opening quote, and then the rest.
unfoldable pub dequote : Text → Option Text
unfolding read_quoted
dequote [] = none
dequote (c ∷ s) = if c == 34 then read_quoted false s else none

-- Every token is read back from its quoted form, whatever backslashes and quotes it holds.
pub dequote-quote : (token : Text) → dequote (quote token) ≡ some token
unfolding quote dequote
dequote-quote token = read_quoted-escape token

pub quote_injective : (s t : Text) → quote s ≡ quote t → s ≡ t
quote_injective s t e = some-injective s t (sym (dequote-quote s) ∙ ap dequote e ∙ dequote-quote t)
