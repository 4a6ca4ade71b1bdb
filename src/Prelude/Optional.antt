-- ===== src/Prelude/Optional.antt =====
-- Chains of fallible steps whose failures the caller treats alike.
use mathlib.Core.Path.{◌≡◌, refl, subst}
use mathlib.Core.List.{List, [], ◌∷◌, map}
use mathlib.Core.Option.{Option, none, some, some-injective}

infixl 5 ◌>>=◌
abbrev pub ◌>>=◌ {ℓ κ} : {A : Type ℓ} {B : Type κ} → Option A → (A → Option B) → Option B
none >>= f = none
some a >>= f = f a

-- Inversion of a chain that succeeded.
pub bind-eq-some {ℓ κ} :
    {A : Type ℓ} {B : Type κ} (o : Option A) (f : A → Option B) {b : B}
    → (o >>= f) ≡ some b
    → (a : A) × (o ≡ some a) × (f a ≡ some b)
bind-eq-some none f h = cc
bind-eq-some (some a) f h = (a, refl, h)

-- `[f(x) for x in xs]`, where `f` may raise.
unfoldable pub traverse {ℓ κ} :
    {A : Type ℓ} {B : Type κ} → (A → Option B) → List A → Option (List B)
traverse f [] = some []
traverse f (x ∷ xs) = f x >>= λ y. traverse f xs >>= λ ys. some (y ∷ ys)

-- What one function made, another reads back.
pub traverse-traverse {ℓ κ μ} :
    {A : Type ℓ} {B : Type κ} {C : Type μ} (g : A → Option B) (f : B → Option C) (h : A → C)
    (xs : List A) (ys : List B)
    → ((x : A) (y : B) → g x ≡ some y → f y ≡ some (h x))
    → traverse g xs ≡ some ys
    → traverse f ys ≡ some (map h xs)
unfolding traverse
traverse-traverse g f h [] ys back e =
    subst (λ o. traverse f o ≡ some []) (some-injective [] ys e) refl
traverse-traverse g f h (x ∷ xs) ys back e =
    let (y, first, after) = bind-eq-some (g x) (λ y. traverse g xs >>= λ ys. some (y ∷ ys)) e in
    let (rest, made, last) = bind-eq-some (traverse g xs) (λ ys. some (y ∷ ys)) after in
    let read = back x y first in
    let reads = traverse-traverse g f h xs rest back made in
    subst (λ o. traverse f o ≡ some (h x ∷ map h xs)) (some-injective (y ∷ rest) ys last)
      (rw (read, reads) refl)
