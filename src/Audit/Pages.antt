-- ===== src/Audit/Pages.antt =====
-- The pages of the audit table, read one after the other.
use astropath_dns_relay.Prelude.{
  ℕ, zero, suc, ◌+◌, ◌*◌, ◌≤◌, ◌<◌, ◌⊎◌, ◌↔◌, true, false, ◌≡◌, Option, none, some, List, [], ◌∷◌,
  ◌++◌, length, take, drop, All, nat_eq, arith, refl, ap, sym, ◌∙◌, Bool-cases, inl, inr,
}
use mathlib.Core.List.{Perm}
use mathlib.Core.List.Perm
use astropath_dns_relay.Audit.{
  ChallengeEvent, ChallengeEventPage, before, place, newest_first, list_events,
}

-- A later time, or the same time and an id that is no smaller.
abbrev pub IsNewer : ChallengeEvent → ChallengeEvent → Type 0
IsNewer a b = (b.ts < a.ts) ⊎ (a.ts ≡ b.ts) × (b.id ≤ a.id)

abbrev pub Newest : List ChallengeEvent → Type 0
Newest [] = Unit
Newest (a ∷ events) = All (IsNewer a) events × Newest events

before-IsNewer : (a b : ChallengeEvent) → (before a b ≡ true) ↔ IsNewer a b
unfolding before
before-IsNewer a b = ground arith

IsNewer-total : (a b : ChallengeEvent) → before a b ≡ false → IsNewer b a
unfolding before
IsNewer-total a b h = ground arith

IsNewer-trans : (a b c : ChallengeEvent) → IsNewer a b → IsNewer b c → IsNewer a c
IsNewer-trans a b c h k = ground arith

All-IsNewer :
    (a b : ChallengeEvent) (events : List ChallengeEvent)
    → IsNewer a b
    → All (IsNewer b) events
    → All (IsNewer a) events
All-IsNewer a b [] h all = tt
All-IsNewer a b (c ∷ events) h all = (IsNewer-trans a b c h all.0, All-IsNewer a b events h all.1)

All-place :
    (a b : ChallengeEvent) (events : List ChallengeEvent)
    → IsNewer b a
    → All (IsNewer b) events
    → All (IsNewer b) (place a events)
unfolding place
All-place a b [] h all = (h, tt)
All-place a b (c ∷ events) h all = elim (Bool-cases (before a c)) [
  | inl first ↦ rw first (h, all)
  | inr later ↦ rw later (all.0, All-place a b events h all.1)
]

place-Newest :
    (a : ChallengeEvent) (events : List ChallengeEvent) → Newest events → Newest (place a events)
unfolding place
place-Newest a [] h = (tt, tt)
place-Newest a (b ∷ events) h = elim (Bool-cases (before a b)) [
  | inl first ↦
      let newer = (before-IsNewer a b).0 first in
      rw first ((newer, All-IsNewer a b events newer h.0), h)
  | inr later ↦
      rw later (All-place a b events (IsNewer-total a b later) h.0, place-Newest a events h.1)
]

newest_first-Newest : (events : List ChallengeEvent) → Newest (newest_first events)
unfolding newest_first
newest_first-Newest [] = tt
newest_first-Newest (a ∷ events) = place-Newest a (newest_first events) (newest_first-Newest events)

place-perm :
    (a : ChallengeEvent) (events : List ChallengeEvent) → Perm (place a events) (a ∷ events)
unfolding place
place-perm a [] = Perm.refl (a ∷ [])
place-perm a (b ∷ events) = elim (Bool-cases (before a b)) [
  | inl first ↦ rw first (Perm.refl (a ∷ (b ∷ events)))
  | inr later ↦ rw later (Perm.trans (Perm.cons b (place-perm a events)) (Perm.swap a b events))
]

newest_first-perm : (events : List ChallengeEvent) → Perm (newest_first events) events
unfolding newest_first
newest_first-perm [] = Perm.refl []
newest_first-perm (a ∷ events) =
    Perm.trans (place-perm a (newest_first events)) (Perm.cons a (newest_first-perm events))

length-place :
    (a : ChallengeEvent) (events : List ChallengeEvent)
    → length (place a events) ≡ suc (length events)
unfolding place
length-place a [] = refl
length-place a (b ∷ events) = ground (arith, length-place a events)

length-newest_first : (events : List ChallengeEvent) → length (newest_first events) ≡ length events
unfolding newest_first
length-newest_first [] = refl
length-newest_first (a ∷ events) =
    omega (arith, length-place a (newest_first events), length-newest_first events)

abbrev pub items_of : Option ChallengeEventPage → List ChallengeEvent
items_of none = []
items_of (some page) = page.items

-- A client that reads a number of pages, each from the end of the last.
unfoldable pub read_pages : ℕ → ℕ → ℕ → List ChallengeEvent → List ChallengeEvent
read_pages zero limit offset events = []
read_pages (suc n) limit offset events =
    items_of (list_events limit offset events) ++ read_pages n limit (offset + limit) events

module _ {A : Type 0} where
  take-nil : (k : ℕ) → take {A = A} k [] ≡ []
  take-nil zero = refl
  take-nil (suc k) = refl

  take-add : (m n : ℕ) (xs : List A) → take (m + n) xs ≡ take m xs ++ take n (drop m xs)
  take-add zero n xs = let e : zero + n ≡ n = omega arith in rw e refl
  take-add (suc m) n [] = let e : suc m + n ≡ suc (m + n) = omega arith in rw e (sym (take-nil n))
  take-add (suc m) n (x ∷ xs) =
      let e : suc m + n ≡ suc (m + n) = omega arith in rw e (ap (λ ys. x ∷ ys) (take-add m n xs))

  drop-add : (m n : ℕ) (xs : List A) → drop (m + n) xs ≡ drop n (drop m xs)
  drop-add zero n xs = let e : zero + n ≡ n = omega arith in rw e refl
  drop-add (suc m) zero [] = let e : suc m + zero ≡ suc m = omega arith in rw e refl
  drop-add (suc m) (suc n) [] = let e : suc m + suc n ≡ suc (m + suc n) = omega arith in rw e refl
  drop-add (suc m) n (x ∷ xs) =
      let e : suc m + n ≡ suc (m + n) = omega arith in rw e (drop-add m n xs)

  take-all : (n : ℕ) (xs : List A) → length xs ≤ n → take n xs ≡ xs
  take-all zero [] h = refl
  take-all zero (x ∷ xs) h = absurd (omega arith)
  take-all (suc n) [] h = refl
  take-all (suc n) (x ∷ xs) h = ap (λ ys. x ∷ ys) (take-all n xs (omega arith))

module _ (limit : ℕ) (low : 1 ≤ limit) (high : limit ≤ 200) (events : List ChallengeEvent) where
  items_lem :
      (offset : ℕ)
      → items_of (list_events limit offset events) ≡ take limit (drop offset (newest_first events))
  unfolding list_events
  items_lem offset = ground arith

  read_pages-take :
      (n offset : ℕ)
      → read_pages n limit offset events ≡ take (n * limit) (drop offset (newest_first events))
  unfolding read_pages
  read_pages-take zero offset = let e : zero * limit ≡ zero = omega arith in rw e refl
  read_pages-take (suc n) offset =
      let e : suc n * limit ≡ limit + n * limit = grind arith in
      rw
        (
          e,
          items_lem offset,
          read_pages-take n (offset + limit),
          take-add limit (n * limit) (drop offset (newest_first events)),
          drop-add offset limit (newest_first events),
        )
        refl

  -- A client that reads pages of a permitted size one after the other, enough of them for the rows of
  -- the table, to which no row is added meanwhile, reads every row once, as a permutation of the
  -- table, the newest first and among those of one time the greatest id first.
  pub read_pages_complete :
      (n : ℕ)
      → length events ≤ n * limit
      → Perm (read_pages n limit 0 events) events × Newest (read_pages n limit 0 events)
  read_pages_complete n enough =
      let all : read_pages n limit 0 events ≡ newest_first events =
        read_pages-take n 0
        ∙ take-all (n * limit) (newest_first events) (omega (arith, length-newest_first events)) in
      rw all (newest_first-perm events, newest_first-Newest events)
