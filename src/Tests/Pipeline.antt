-- ===== src/Tests/Pipeline.antt =====
-- A cross-site request for the deletion of a domain, with the cookie of the admin.
use astropath_dns_relay.Prelude.{
  true, false, ◌≡◌, refl, none, some, [], ◌∷◌, Text, codes, text_eq, text_beq, contains,
}
use astropath_dns_relay.Api.RateLimit.{login_rate_limiter}
use astropath_dns_relay.Api.Auth.{Argon2}
use astropath_dns_relay.Api.Csrf.{safe_methods}
use astropath_dns_relay.Api.Rows.{deletes_domain}
use astropath_dns_relay.Api.Endpoints.{Management, changes_rows, lists_tsig_keys, endpoint_method}
use astropath_dns_relay.Api.Endpoints.Serve.{handle_endpoint}
use astropath_dns_relay.Api.Endpoints.Secrets.{reads_hide_secrets}
use astropath_dns_relay.Api.Pipeline.{WebRequest, Services}
use astropath_dns_relay.Tests.Api.{urlsplit, store, digest_of}
use astropath_dns_relay.Tests.Rows.{
  Loaded, plain, text_json, only_hurricane, no_tables, loads_tables,
}

abbrev origin : Text
origin = codes "https://astropath.example"

abbrev plain_argon2 : Argon2
plain_argon2 = record {
  hash_password = λ salt password. password;
  verify_password = λ hash password. true;
  password_needs_rehash = λ hash. false;
}

abbrev services : Services Loaded Text Text
services = record {
  urlsplit = urlsplit;
  str = λ n. n ∷ [];
  unsign = λ cookie. true;
  hash_token = digest_of;
  argon2 = plain_argon2;
  kek = plain;
  json = text_json;
  schemas = only_hurricane;
  load_tables = loads_tables;
  management_origin = some origin;
}

abbrev plane : Management Loaded Text
plane = record {
  tables = no_tables;
  cache = some none;
  limiter = login_rate_limiter;
  store = some store;
  events = [];
}

abbrev forged_call : WebRequest Text
forged_call = record {
  endpoint = changes_rows (deletes_domain 1);
  origin = none;
  referer = some (codes "https://evil.example/x");
  x_api_key = none;
  cookie = some (codes "signed");
  now = 5;
}

-- The same tables with one TSIG key, whose secret is given.
abbrev key_plane : Text → Management Loaded Text
key_plane secret = record plane {
  tables = record no_tables {
    tsig_keys =
        record {
          id = 1;
          name = codes "acme-key";
          algorithm = codes "hmac-sha256";
          secret_encrypted = secret;
          created_at = 3;
        }
        ∷ [];
  };
}

keys_are_read : contains safe_methods (endpoint_method {J = Text} lists_tsig_keys) ≡ true
unfolding contains text_beq endpoint_method
keys_are_read = refl

reads_hide_secrets_example :
    (handle_endpoint loads_tables plain text_json only_hurricane plain_argon2 digest_of
      lists_tsig_keys true
      (key_plane (codes "c2VjcmV0"))).0
    ≡ (handle_endpoint loads_tables plain text_json only_hurricane plain_argon2 digest_of
        lists_tsig_keys true
        (key_plane (codes "b3RoZXI="))).0
reads_hide_secrets_example =
    reads_hide_secrets loads_tables plain text_json only_hurricane plain_argon2 digest_of
      lists_tsig_keys true (key_plane (codes "c2VjcmV0")) (key_plane (codes "b3RoZXI="))
      keys_are_read refl
