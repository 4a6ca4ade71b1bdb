-- ===== src/Providers/Hurricane/Words.antt =====
-- The first word of a text, by where it stands in it.
use astropath_dns_relay.Prelude.{
  ℕ, true, false, ◌≡◌, refl, sym, ap, subst, ◌∙◌, inl, inr, [], ◌∷◌, ◌++◌, Text, All, is_space,
  Bool-cases,
}
use astropath_dns_relay.Providers.Hurricane.{word, first_word}

-- The end of the text, or white space.
abbrev pub Stops : Text → Type 0
Stops [] = Unit
Stops (d ∷ remainder) = is_space d ≡ true

-- What follows a word; there is no word only where the text ends.
abbrev pub EndsAt : Text → Text → Type 0
EndsAt [] remainder = remainder ≡ []
EndsAt (c ∷ w) remainder = Stops remainder

-- The text is white space, then the word, which has none, and then the end or more white space.
pub record IsFirstWord (text w : Text) : Type 0 where
  pub before : Text
  pub remainder : Text
  pub parts : text ≡ before ++ (w ++ remainder)
  pub blank : All (λ c. is_space c ≡ true) before
  pub solid : All (λ c. is_space c ≡ false) w
  pub ends : EndsAt w remainder

word-append :
    (w remainder : Text)
    → All (λ c. is_space c ≡ false) w
    → Stops remainder
    → word (w ++ remainder) ≡ w
unfolding word
word-append [] [] h e = refl
word-append [] (d ∷ remainder) h e = rw e refl
word-append (c ∷ w) remainder (solid, h) e = rw solid (ap (c ∷◌) (word-append w remainder h e))

-- A text that begins with a word.
first_word_solid : (c : ℕ) (s : Text) → is_space c ≡ false → first_word (c ∷ s) ≡ c ∷ word s
unfolding first_word word
first_word_solid c s solid = rw solid refl

first_word_blank : (c : ℕ) (s : Text) → is_space c ≡ true → first_word (c ∷ s) ≡ first_word s
unfolding first_word
first_word_blank c s blank = rw blank refl

first_word-append :
    (before w remainder : Text)
    → All (λ c. is_space c ≡ true) before
    → All (λ c. is_space c ≡ false) w
    → EndsAt w remainder
    → first_word (before ++ (w ++ remainder)) ≡ w
unfolding first_word
first_word-append [] [] remainder blank solid e = rw e refl
first_word-append [] (c ∷ w) remainder blank solid e =
    first_word_solid c (w ++ remainder) solid.0 ∙ ap (c ∷◌) (word-append w remainder solid.1 e)
first_word-append (b ∷ before) w remainder (space, blank) solid e =
    first_word_blank b (before ++ (w ++ remainder)) space
    ∙ first_word-append before w remainder blank solid e

-- There is one first word at most.
pub IsFirstWord-unique : (text w : Text) → IsFirstWord text w → first_word text ≡ w
IsFirstWord-unique text w h =
    ap first_word h.parts ∙ first_word-append h.before w h.remainder h.blank h.solid h.ends

word_split :
    (s : Text)
    → (remainder : Text) × (s ≡ word s ++ remainder)
      × All (λ c. is_space c ≡ false) (word s)
      × Stops remainder
unfolding word
word_split [] = ([], refl, tt, tt)
word_split (c ∷ s) = elim (Bool-cases (is_space c)) [
  | inl space ↦ rw space (c ∷ s, refl, tt, space)
  | inr solid ↦
      let (remainder, parts, all, stops) = word_split s in
      rw solid (remainder, ap (c ∷◌) parts, (solid, all), stops)
]

pub first_word-IsFirstWord : (text : Text) → IsFirstWord text (first_word text)
unfolding first_word
first_word-IsFirstWord [] = record {
  before = [];
  remainder = [];
  parts = refl;
  blank = tt;
  solid = tt;
  ends = refl;
}
first_word-IsFirstWord (c ∷ s) = elim (Bool-cases (is_space c)) [
  | inl space ↦
      let h = first_word-IsFirstWord s in
      subst (IsFirstWord (c ∷ s)) (sym (first_word_blank c s space)) (record {
        before = c ∷ h.before;
        remainder = h.remainder;
        parts = ap (c ∷◌) h.parts;
        blank = (space, h.blank);
        solid = h.solid;
        ends = h.ends;
      })
  | inr solid ↦
      let (remainder, parts, all, stops) = word_split s in
      subst (IsFirstWord (c ∷ s)) (sym (first_word_solid c s solid)) (record {
        before = [];
        remainder = remainder;
        parts = ap (c ∷◌) parts;
        blank = tt;
        solid = (solid, all);
        ends = stops;
      })
]
