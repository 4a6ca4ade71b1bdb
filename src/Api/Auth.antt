-- ===== src/Api/Auth.antt =====
-- api/auth.py: the two ways into the management plane, and the admin password. The SHA-256 digest of
-- a token and the argon2 functions are parameters; a salt is an argument. The rows are those of the
-- tables `ApiToken` and `AdminCredential`, and times are readings of the clock.
pub mod Access
use astropath_dns_relay.Prelude.{
  ℕ, Bool, true, false, not, ◌&&◌, Option, none, some, List, [], ◌∷◌, Text, text_eq, text_beq, ◌==◌,
  if◌then◌else◌,
}

pub record ApiToken : Type 0 where
  pub id : ℕ
  pub name : Text
  pub token_hash : Text
  pub created_at : ℕ
  pub last_used_at : Option ℕ

-- `admin` is the password hash of the row 1 of `AdminCredential`.
pub record AuthStore : Type 0 where
  pub tokens : List ApiToken
  pub admin : Option Text

-- argon2, as store.py calls it
pub record Argon2 : Type 0 where
  pub hash_password : ℕ → Text → Text
  pub verify_password : Text → Text → Bool
  pub password_needs_rehash : Text → Bool

-- The first token with a digest, stamped; the column is unique, so there is no other.
unfoldable pub stamp : ℕ → Text → List ApiToken → Option (List ApiToken)
stamp now digest [] = none
stamp now digest (token ∷ tokens) =
    let rest = stamp now digest tokens in
    if token.token_hash == digest
    then some (record token { last_used_at = some now } ∷ tokens)
    else elim rest [ none ↦ none | some tokens' ↦ some (token ∷ tokens') ]

-- The store is none for a service without a database.
unfoldable pub keep_stamp : AuthStore → Option (List ApiToken) → Bool × Option AuthStore
keep_stamp store none = (false, some store)
keep_stamp store (some tokens) = (true, some (record store { tokens = tokens }))

unfoldable pub api_token_valid :
    (Text → Text) → ℕ → Text → Option AuthStore → Bool × Option AuthStore
unfolding stamp keep_stamp
api_token_valid hash_token now api_key none = (false, none)
api_token_valid hash_token now api_key (some store) =
    keep_stamp store (stamp now (hash_token api_key) store.tokens)

-- `require_admin`: true for a return, false for the HTTPException 401. The session cookie counts by
-- its presence, and its marker is read by the session middleware.
unfoldable pub require_admin :
    (Text → Text) → ℕ → Bool → Bool → Option Text → Option AuthStore → Bool × Option AuthStore
unfolding api_token_valid
require_admin hash_token now has_cookie session_is_admin none store =
    (has_cookie && session_is_admin, store)
require_admin hash_token now has_cookie session_is_admin (some api_key) store =
    if has_cookie && session_is_admin
    then (true, store)
    else api_token_valid hash_token now api_key store

-- `_stored_admin_hash`, with the seed of the environment
unfoldable pub stored_admin_hash : Text → AuthStore → Text
stored_admin_hash seed store = elim store.admin [ none ↦ seed | some row ↦ row ]

-- `_persist_admin_hash`
abbrev pub persist_admin_hash : Text → AuthStore → AuthStore
persist_admin_hash new_hash store = record store { admin = some new_hash }

unfoldable pub verify_admin_password :
    Argon2 → Text → ℕ → Text → Option AuthStore → Bool × Option AuthStore
unfolding stored_admin_hash
verify_admin_password argon2 seed salt password none = (argon2.verify_password seed password, none)
verify_admin_password argon2 seed salt password (some store) =
    let stored = stored_admin_hash seed store in
    if not (argon2.verify_password stored password)
    then (false, some store)
    else if argon2.password_needs_rehash stored
    then (true, some (persist_admin_hash (argon2.hash_password salt password) store))
    else (true, some store)

-- `set_admin_password`: none where it raises RuntimeError
unfoldable pub set_admin_password : Argon2 → ℕ → Text → Option AuthStore → Option AuthStore
set_admin_password argon2 salt new_password none = none
set_admin_password argon2 salt new_password (some store) =
    some (persist_admin_hash (argon2.hash_password salt new_password) store)
