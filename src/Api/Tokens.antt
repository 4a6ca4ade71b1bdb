-- ===== src/Api/Tokens.antt =====
-- api/routes_tokens.py with `build_api_token` of store.py: API tokens are made and revoked. The new token,
-- its id and the time are arguments, and SHA-256 is a parameter. The digests are a unique column, whose
-- IntegrityError the handler does not turn into a response.
pub mod Lifecycle
use astropath_dns_relay.Prelude.{
  ℕ, not, Option, none, some, [], ◌∷◌, ◌++◌, Text, nat_eq, text_eq, ◌==◌, keep, if◌then◌else◌,
}
use astropath_dns_relay.Api.Auth.{ApiToken, AuthStore}
use astropath_dns_relay.Api.Rows.{has}

module _ (hash_token : Text → Text) where
  -- The row, and the token that is shown once.
  unfoldable pub build_api_token : (id now : ℕ) → (name plaintext : Text) → ApiToken × Text
  build_api_token id now name plaintext =
      let row : ApiToken = record {
        id = id;
        name = name;
        token_hash = hash_token plaintext;
        created_at = now;
        last_used_at = none;
      } in
      (row, plaintext)

  -- The status, the store, and the token of the response.
  unfoldable pub create_api_token :
      (id now : ℕ) → (name token : Text) → AuthStore → ℕ × AuthStore × Option Text
  unfolding build_api_token has
  create_api_token id now name token store =
      let (row, plaintext) = build_api_token id now name token in
      if has (λ (t : ApiToken). t.token_hash) store.tokens row.token_hash
      then (500, store, none)
      else (201, record store { tokens = store.tokens ++ row ∷ [] }, some plaintext)

unfoldable pub revoke_api_token : ℕ → AuthStore → ℕ × AuthStore
unfolding has keep
revoke_api_token token_id store =
    if not (has (λ (t : ApiToken). t.id) store.tokens token_id)
    then (404, store)
    else (204, record store { tokens = keep (λ t. not (t.id == token_id)) store.tokens })
