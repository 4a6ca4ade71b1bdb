-- ===== src/Tests/Api.antt =====
-- Test data of the management plane.
use astropath_dns_relay.Prelude.{none, [], ◌∷◌, Text, codes, text_eq}
use astropath_dns_relay.Api.Auth.{AuthStore}

abbrev pub urlsplit : Text → Text × Text
urlsplit url = (codes "https", codes "evil.example")

abbrev pub store : AuthStore
store = record {
  tokens =
      record {
        id = 1;
        name = codes "ci";
        token_hash = codes "digest";
        created_at = 1;
        last_used_at = none;
      }
      ∷ [];
  admin = none;
}

abbrev pub digest_of : Text → Text
digest_of key = codes "digest"
