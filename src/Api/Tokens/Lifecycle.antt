-- ===== src/Api/Tokens/Lifecycle.antt =====
-- A token works from its creation to its revocation.
use astropath_dns_relay.Prelude.{
  ℕ, true, false, not, ◌||◌, ◌≡◌, none, some, List, [], ◌∷◌, ◌++◌, Text, nat_eq, text_eq, ◌==◌,
  keep, contains, arith, refl, sym, ap, ◌∙◌, if◌then◌else◌,
}
use astropath_dns_relay.Api.Auth.{ApiToken, AuthStore, api_token_valid}
use astropath_dns_relay.Api.Auth.Access.{digests, api_token_valid_lem}
use astropath_dns_relay.Api.Rows.{has}
use astropath_dns_relay.Api.Tokens.{build_api_token, create_api_token, revoke_api_token}

abbrev hash_of : ApiToken → Text
hash_of t = t.token_hash

abbrev id_of : ApiToken → ℕ
id_of t = t.id

has-contains :
    (tokens : List ApiToken) (d : Text) → has hash_of tokens d ≡ contains (digests tokens) d
unfolding has contains
has-contains [] d = refl
has-contains (t ∷ tokens) d = ground (arith, has-contains tokens d)

contains-append :
    (tokens : List ApiToken) (row : ApiToken) (d : Text)
    → contains (digests (tokens ++ row ∷ [])) d
      ≡ (contains (digests tokens) d || row.token_hash == d)
unfolding contains
contains-append [] row d = ground arith
contains-append (t ∷ tokens) row d = ground (arith, contains-append tokens row d)

has-append :
    (tokens : List ApiToken) (row : ApiToken) → has id_of (tokens ++ row ∷ []) row.id ≡ true
unfolding has
has-append [] row = ground arith
has-append (t ∷ tokens) row = ground (arith, has-append tokens row)

keep-append :
    (tokens : List ApiToken) (row : ApiToken)
    → has id_of tokens row.id ≡ false
    → keep (λ t. not (t.id == row.id)) (tokens ++ row ∷ []) ≡ tokens
unfolding has keep
keep-append [] row h = ground arith
keep-append (t ∷ tokens) row h = ground (arith, keep-append tokens row)

module _ (hash_token : Text → Text) where
  accepts_lem :
      (now : ℕ) (key : Text) (store : AuthStore)
      → (api_token_valid hash_token now key (some store)).0
        ≡ contains (digests store.tokens) (hash_token key)
  accepts_lem now key store = (api_token_valid_lem hash_token now key (some store)).0

  module _ (id at : ℕ) (name token : Text) (store : AuthStore)
      (created : (create_api_token hash_token id at name token store).0 ≡ 201) where
    new_token :
        (create_api_token hash_token id at name token store).1.tokens
        ≡ store.tokens
          ++ record {
            id = id;
            name = name;
            token_hash = hash_token token;
            created_at = at;
            last_used_at = none;
          }
            ∷ []
    unfolding create_api_token build_api_token
    new_token = ground arith

    unknown : contains (digests store.tokens) (hash_token token) ≡ false
    unfolding create_api_token build_api_token
    unknown = ground (arith, has-contains store.tokens (hash_token token))

    shown : (create_api_token hash_token id at name token store).2 ≡ some token
    unfolding create_api_token build_api_token
    shown = ground arith

  revoked_tokens :
      (id : ℕ) (s store : AuthStore) (row : ApiToken)
      → row.id ≡ id
      → s.tokens ≡ store.tokens ++ row ∷ []
      → has id_of store.tokens id ≡ false
      → (revoke_api_token id s).1.tokens ≡ store.tokens
  unfolding revoke_api_token
  revoked_tokens id s store row same e fresh =
      ground (arith, has-append store.tokens row, keep-append store.tokens row)

  -- When a token was created, with status 201 and an id that no row has: the response shows it; it was
  -- not accepted before, and is accepted from then on; another key with another digest is accepted
  -- exactly if it was before. When the token is then revoked, every key is accepted exactly if it was
  -- before the creation, so that the token is not.
  pub token_lifecycle :
      (id at now : ℕ) (name token key : Text) (store : AuthStore)
      → has id_of store.tokens id ≡ false
      → (create_api_token hash_token id at name token store).0 ≡ 201
      → let s = (create_api_token hash_token id at name token store).1 in
        ((create_api_token hash_token id at name token store).2 ≡ some token)
        × ((api_token_valid hash_token now token (some store)).0 ≡ false)
        × ((api_token_valid hash_token now key (some s)).0 ≡ (
            if hash_token token == hash_token key
            then true
            else (api_token_valid hash_token now key (some store)).0))
        × ((api_token_valid hash_token now key (some (revoke_api_token id s).1)).0
            ≡ (api_token_valid hash_token now key (some store)).0)
  token_lifecycle id at now name token key store fresh created =
      let s : AuthStore = (create_api_token hash_token id at name token store).1 in
      let row : ApiToken = record {
        id = id;
        name = name;
        token_hash = hash_token token;
        created_at = at;
        last_used_at = none;
      } in
      let added : s.tokens ≡ store.tokens ++ row ∷ [] = new_token id at name token store created in
      let before = accepts_lem now key store in
      (
        shown id at name token store created,
        accepts_lem now token store ∙ unknown id at name token store created,
        accepts_lem now key s
            ∙ ap (λ ts. contains (digests ts) (hash_token key)) added
            ∙ contains-append store.tokens row (hash_token key)
            ∙ ground (arith, before),
        accepts_lem now key (revoke_api_token id s).1
            ∙ ap (λ ts. contains (digests ts) (hash_token key))
                (revoked_tokens id s store row refl added fresh)
            ∙ sym before,
      )
