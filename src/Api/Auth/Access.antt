-- ===== src/Api/Auth/Access.antt =====
-- Who is let in, and that the admin password stays usable.
use astropath_dns_relay.Prelude.{
  ℕ, Bool, true, false, ◌≡◌, ◌⊎◌, ◌↔◌, inl, inr, refl, sym, Option, none, some, List, [], ◌∷◌, map,
  Text, text_eq, contains, ◌==◌, arith, Bool-cases,
}
use astropath_dns_relay.Api.Auth.{
  ApiToken, AuthStore, Argon2, stamp, keep_stamp, api_token_valid, require_admin, stored_admin_hash,
  verify_admin_password, set_admin_password,
}

-- The digests of the stored tokens.
abbrev pub digests : List ApiToken → List Text
digests = map (λ (token : ApiToken). token.token_hash)

-- A stamp of a token: there is one exactly if a token has the digest, and it keeps all digests.
abbrev IsStamp : Text → List ApiToken → Option (List ApiToken) → Type 0
IsStamp digest tokens none = contains (digests tokens) digest ≡ false
IsStamp digest tokens (some tokens') =
    (contains (digests tokens) digest ≡ true) × (digests tokens' ≡ digests tokens)

IsStamp-cons :
    (digest : Text) (token : ApiToken) (tokens : List ApiToken) (rest : Option (List ApiToken))
    → (token.token_hash == digest) ≡ false
    → IsStamp digest tokens rest
    → IsStamp digest
        (token ∷ tokens)
        (elim rest [ none ↦ none | some tokens' ↦ some (token ∷ tokens') ])
unfolding contains
IsStamp-cons digest token tokens none ne h = ground arith
IsStamp-cons digest token tokens (some tokens') ne h = (ground arith, ground arith)

stamp-IsStamp :
    (now : ℕ) (digest : Text) (tokens : List ApiToken)
    → IsStamp digest tokens (stamp now digest tokens)
unfolding stamp contains
stamp-IsStamp now digest [] = refl
stamp-IsStamp now digest (token ∷ tokens) = elim (Bool-cases (token.token_hash == digest)) [
  | inl same ↦ rw same (ground arith, refl)
  | inr different ↦ rw different (
      IsStamp-cons digest token tokens (stamp now digest tokens) different
        (stamp-IsStamp now digest tokens))
]

-- The digests of a store, none without a database.
abbrev pub store_digests : Option AuthStore → List Text
store_digests none = []
store_digests (some store) = digests store.tokens

pub api_token_valid_lem :
    (hash_token : Text → Text) (now : ℕ) (api_key : Text) (store : Option AuthStore)
    → let out = api_token_valid hash_token now api_key store in
      (out.0 ≡ contains (store_digests store) (hash_token api_key))
      × (store_digests out.1 ≡ store_digests store)
unfolding api_token_valid contains keep_stamp
api_token_valid_lem hash_token now api_key none = (refl, refl)
api_token_valid_lem hash_token now api_key (some store) =
    kept (stamp now (hash_token api_key) store.tokens)
      (stamp-IsStamp now (hash_token api_key) store.tokens)
  where
    kept :
        (found : Option (List ApiToken))
        → IsStamp (hash_token api_key) store.tokens found
        → ((keep_stamp store found).0 ≡ contains (digests store.tokens) (hash_token api_key))
          × (store_digests (keep_stamp store found).1 ≡ digests store.tokens)
    kept none h = (sym h, refl)
    kept (some tokens) h = (sym h.0, h.1)

-- The digest of an API key is stored.
abbrev pub IsKnown : (Text → Text) → Option Text → Option AuthStore → Type 0
IsKnown hash_token none store = ⊥
IsKnown hash_token (some api_key) store = contains (store_digests store) (hash_token api_key) ≡ true

-- `require_admin` returns exactly if there is a session cookie whose session is the admin's, or an
-- API key whose digest is stored; in all other cases it raises 401. The digests that are stored do
-- not change.
pub require_admin_iff :
    (hash_token : Text → Text) (now : ℕ) (has_cookie session_is_admin : Bool)
    (api_key : Option Text) (store : Option AuthStore)
    → let out = require_admin hash_token now has_cookie session_is_admin api_key store in
      ((out.0 ≡ true)
        ↔ ((has_cookie ≡ true) × (session_is_admin ≡ true) ⊎ IsKnown hash_token api_key store))
      × (store_digests out.1 ≡ store_digests store)
unfolding require_admin
require_admin_iff hash_token now has_cookie session_is_admin none store =
    ((λ h. inl (ground arith, ground arith), λ h. ground arith), refl)
require_admin_iff hash_token now has_cookie session_is_admin (some api_key) store =
    let (known, kept) = api_token_valid_lem hash_token now api_key store in
    ((λ h. ground arith, λ h. ground arith), ground arith)

module _ (argon2 : Argon2) (seed : Text) where
  -- After a change of the admin password that returned, the new password is accepted, whatever the
  -- seed and whatever hash was stored, and it is accepted again after any login with it, which may
  -- have stored an upgraded hash; argon2 must accept a password against its own hash.
  pub set_admin_password-verify :
      (salt salt' salt'' : ℕ) (password : Text) (store : Option AuthStore) (store' : AuthStore)
      → ((s : ℕ) (p : Text) → argon2.verify_password (argon2.hash_password s p) p ≡ true)
      → set_admin_password argon2 salt password store ≡ some store'
      → let first = verify_admin_password argon2 seed salt' password (some store') in
        (first.0 ≡ true) × ((verify_admin_password argon2 seed salt'' password first.1).0 ≡ true)
  unfolding verify_admin_password set_admin_password stored_admin_hash
  set_admin_password-verify salt salt' salt'' password none store' law e = absurd (ground arith)
  set_admin_password-verify salt salt' salt'' password (some store) store' law e =
      let upgraded = law salt' password in let mine = law salt password in ground (arith, e)
