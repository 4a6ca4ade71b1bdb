-- ===== src/Tests/Tokens.antt =====
-- A token is made, used and revoked; the digest of a token is its reverse.
use mathlib.Core.List.{reverse}
use astropath_dns_relay.Prelude.{
  true, false, ◌≡◌, refl, none, some, [], ◌∷◌, Text, codes, nat_eq, text_eq, ◌==◌, text_beq,
  if◌then◌else◌,
}
use astropath_dns_relay.Api.Auth.{ApiToken, AuthStore, api_token_valid}
use astropath_dns_relay.Api.Rows.{has}
use astropath_dns_relay.Api.Tokens.{create_api_token, revoke_api_token}
use astropath_dns_relay.Api.Tokens.Lifecycle.{token_lifecycle}

abbrev digest : Text → Text
digest t = reverse t

abbrev one_token : AuthStore
one_token = record {
  tokens =
      record {
        id = 1;
        name = codes "ci";
        token_hash = codes "dlo";
        created_at = 1;
        last_used_at = none;
      }
      ∷ [];
  admin = none;
}

abbrev after : AuthStore
after = (create_api_token digest 2 3 (codes "cd") (codes "new") one_token).1

fresh_id : has (λ (t : ApiToken). t.id) one_token.tokens 2 ≡ false
unfolding has
fresh_id = refl

was_created : (create_api_token digest 2 3 (codes "cd") (codes "new") one_token).0 ≡ 201
unfolding create_api_token text_beq
was_created = refl

token_lifecycle_example :
    ((create_api_token digest 2 3 (codes "cd") (codes "new") one_token).2 ≡ some (codes "new"))
    × ((api_token_valid digest 5 (codes "new") (some one_token)).0 ≡ false)
    × ((api_token_valid digest 5 (codes "old") (some after)).0 ≡ (
        if digest (codes "new") == digest (codes "old")
        then true
        else (api_token_valid digest 5 (codes "old") (some one_token)).0))
    × ((api_token_valid digest 5 (codes "old") (some (revoke_api_token 2 after).1)).0
        ≡ (api_token_valid digest 5 (codes "old") (some one_token)).0)
token_lifecycle_example =
    token_lifecycle digest 2 3 5 (codes "cd") (codes "new") (codes "old") one_token fresh_id
      was_created
