-- ===== src/Crypto.antt =====
-- crypto.py: the key list of the credential KEK, and the KEK over `MultiFernet`, which is a library's
-- and a parameter here, like `Fernet`.
pub mod Keylist
use astropath_dns_relay.Prelude.{
  ℕ, zero, suc, Bool, true, false, not, ◌||◌, ◌≡◌, ◌⊎◌, Option, none, some, List, [], ◌∷◌, Text,
  All, subst, sym, inl, inr, is_space, nat_eq, ◌==◌, if◌then◌else◌,
}
use astropath_dns_relay.Prelude.Result.{Result, ok, err, ◌>>=◌}

-- The separators of `_KEYLIST_SPLIT`.
unfoldable pub is_separator : ℕ → Bool
unfolding is_space
is_separator c = is_space c || c == b','

-- One entry more, unless it is empty.
abbrev pub add_entry : Text → List Text → List Text
add_entry [] entries = entries
add_entry (c ∷ entry) entries = (c ∷ entry) ∷ entries

-- The first entry of a text, up to a separator, and the entries after it that are not empty. White
-- space at the ends makes no entry, so the `strip` before the split has no effect.
unfoldable pub entries_of : Text → Text × List Text
unfolding is_separator
entries_of [] = ([], [])
entries_of (c ∷ raw) =
    let (entry, entries) = entries_of raw in
    if is_separator c then ([], add_entry entry entries) else (c ∷ entry, entries)

unfoldable pub parse_keylist : Text → List Text
unfolding entries_of
parse_keylist raw = let (entry, entries) = entries_of raw in add_entry entry entries

-- `KekError`: the list is empty, or the key at a position is not valid.
pub data KekError : Type 0 where
  empty : KekError
  invalid : ℕ → KekError

-- `Fernet(key)`, and a `MultiFernet` with its methods; none where they raise. `F` is a key, `M` the
-- `MultiFernet`, `T` a token, and the number is the randomness and the time of an encryption.
pub record FernetLibrary (F M T : Type 0) : Type 0 where
  pub fernet : Text → Option F
  pub multi_fernet : List F → M
  pub encrypt : M → ℕ → Text → T
  pub decrypt : M → T → Option Text
  pub rotate : M → ℕ → T → Option T

module _ {F M T : Type 0} (lib : FernetLibrary F M T) where
  unfoldable pub build_from : ℕ → List Text → Result KekError (List F)
  build_from index [] = ok []
  build_from index (key ∷ keys) = elim (lib.fernet key) [
    | none ↦ err (invalid index)
    | some fernet ↦ build_from (suc index) keys >>= λ fernets. ok (fernet ∷ fernets)
  ]

  -- `_build_fernets`
  unfoldable pub build_fernets : List Text → Result KekError (List F)
  unfolding build_from
  build_fernets [] = err empty
  build_fernets (key ∷ keys) = build_from zero (key ∷ keys)

  -- `Kek.from_keylist`
  unfoldable pub kek_from_keylist : Text → Result KekError M
  unfolding build_fernets parse_keylist
  kek_from_keylist raw =
      build_fernets (parse_keylist raw) >>= λ fernets. ok (lib.multi_fernet fernets)

abbrev pub Among : {A : Type 0} → A → List A → Type 0
Among a [] = ⊥
Among a (x ∷ xs) = (a ≡ x) ⊎ Among a xs

pub All-Among : {A : Type 0} (P : A → Type 0) (xs : List A) (x : A) → All P xs → Among x xs → P x
All-Among P [] x h m = absurd m
All-Among P (y ∷ xs) x h (inl e) = subst P (sym e) h.0
All-Among P (y ∷ xs) x h (inr m) = All-Among P xs x h.1 m

-- What is documented of `MultiFernet`. `Under f token text` says that the token is an encryption of
-- the text with the key `f`: such a token is read by every list with that key, whatever its place,
-- new tokens are made with the first key, and so are rotated ones.
pub record MultiFernetLaws {F M T : Type 0} (lib : FernetLibrary F M T) : Type 1 where
  pub Under : F → T → Text → Type 0
  pub encrypts :
      (f : F) (fs : List F) (noise : ℕ) (text : Text)
      → Under f (lib.encrypt (lib.multi_fernet (f ∷ fs)) noise text) text
  pub decrypts :
      (f : F) (fs : List F) (token : T) (text : Text)
      → Among f fs
      → Under f token text
      → lib.decrypt (lib.multi_fernet fs) token ≡ some text
  pub rotates :
      (f g : F) (fs : List F) (noise : ℕ) (token : T) (text : Text)
      → Among g (f ∷ fs)
      → Under g token text
      → (token' : T) × (lib.rotate (lib.multi_fernet (f ∷ fs)) noise token ≡ some token')
        × Under f token' text
