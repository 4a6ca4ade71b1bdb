-- ===== src/Api/Views.antt =====
-- api/schemas.py: the read models of the management API, with the handlers of routes_backends.py,
-- routes_domains.py, routes_tsig.py and routes_tokens.py that return them. A SELECT without an order
-- returns the rows of the table.
use astropath_dns_relay.Prelude.{ℕ, Bool, true, false, Option, none, some, List, map, Text}
use astropath_dns_relay.Models.{Backend, Domain, TsigKey}
use astropath_dns_relay.Api.Auth.{ApiToken}
use astropath_dns_relay.Api.Rows.{get_backend}

pub record BackendRead : Type 0 where
  pub id : ℕ
  pub name : Text
  pub type : Text
  pub created_at : ℕ
  pub updated_at : ℕ

pub record DomainRead : Type 0 where
  pub id : ℕ
  pub zone : Text
  pub backend_id : ℕ
  pub record_name : Text
  pub created_at : ℕ
  pub has_secret : Bool

pub record TsigKeyRead : Type 0 where
  pub id : ℕ
  pub name : Text
  pub algorithm : Text
  pub created_at : ℕ

pub record ApiTokenRead : Type 0 where
  pub id : ℕ
  pub name : Text
  pub created_at : ℕ
  pub last_used_at : Option ℕ

abbrev pub is_some : {A : Type 0} → Option A → Bool
is_some none = false
is_some (some a) = true

unfoldable pub api_token_read : ApiToken → ApiTokenRead
api_token_read row = record {
  id = row.id;
  name = row.name;
  created_at = row.created_at;
  last_used_at = row.last_used_at;
}

unfoldable pub list_api_tokens : List ApiToken → List ApiTokenRead
unfolding api_token_read
list_api_tokens rows = map api_token_read rows

module _ {T : Type 0} where
  unfoldable pub backend_read : Backend T → BackendRead
  backend_read row = record {
    id = row.id;
    name = row.name;
    type = row.type;
    created_at = row.created_at;
    updated_at = row.updated_at;
  }

  -- `_to_read`
  unfoldable pub domain_read : Domain T → DomainRead
  domain_read row = record {
    id = row.id;
    zone = row.zone;
    backend_id = row.backend_id;
    record_name = row.record_name;
    created_at = row.created_at;
    has_secret = is_some row.secret_encrypted;
  }

  unfoldable pub tsig_key_read : TsigKey T → TsigKeyRead
  tsig_key_read row = record {
    id = row.id;
    name = row.name;
    algorithm = row.algorithm;
    created_at = row.created_at;
  }

  unfoldable pub list_backends : List (Backend T) → List BackendRead
  unfolding backend_read
  list_backends rows = map backend_read rows

  -- `get_backend` of the routes: none for its 404
  unfoldable pub read_backend : ℕ → List (Backend T) → Option BackendRead
  unfolding get_backend backend_read
  read_backend backend_id rows = elim (get_backend rows backend_id) [
    | none ↦ none
    | some row ↦ some (backend_read row)
  ]

  unfoldable pub list_domains : List (Domain T) → List DomainRead
  unfolding domain_read
  list_domains rows = map domain_read rows

  unfoldable pub list_tsig_keys : List (TsigKey T) → List TsigKeyRead
  unfolding tsig_key_read
  list_tsig_keys rows = map tsig_key_read rows
