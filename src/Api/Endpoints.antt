-- ===== src/Api/Endpoints.antt =====
-- The routes of the management API (the routers of api/routes_*.py, and the documents and probes of
-- api/app.py): for each its method and path, whether it depends on `require_admin`, and what its handler
-- answers. Parsing the body and finding the route of a path are FastAPI's; `str` writes an id.
pub mod Serve
pub mod Safe
pub mod Public
pub mod Secrets
use astropath_dns_relay.Prelude.{
  ℕ, Bool, true, false, Option, none, some, List, [], ◌∷◌, ◌++◌, Text, codes,
}
use astropath_dns_relay.Models.{Tables}
use astropath_dns_relay.Store.{Kek, Json}
use astropath_dns_relay.Audit.{ChallengeEvent, ChallengeEventPage, list_events}
use astropath_dns_relay.Api.RateLimit.{LoginRateLimiter}
use astropath_dns_relay.Api.Auth.{AuthStore, Argon2}
use astropath_dns_relay.Api.Login.{LoginState, Moment, login, logout, change_password}
use astropath_dns_relay.Api.Tokens.{create_api_token, revoke_api_token}
use astropath_dns_relay.Api.App.{Ready}
use astropath_dns_relay.Api.Rows.{
  Schemas, Request, creates_backend, updates_backend, deletes_backend, creates_domain,
  deletes_domain, creates_tsig_key, revokes_tsig_key, respond,
}
use astropath_dns_relay.Api.Views.{
  BackendRead, DomainRead, TsigKeyRead, ApiTokenRead, list_backends, read_backend, list_domains,
  list_tsig_keys, list_api_tokens,
}

-- What the handlers share; the store is none for a service without a database.
pub record Management (S T : Type 0) : Type 0 where
  pub tables : Tables T
  pub cache : Option (Option S)
  pub limiter : LoginRateLimiter
  pub store : Option AuthStore
  pub events : List ChallengeEvent

pub data Endpoint (J : Type 0) : Type 0 where
  gets_health gets_session lists_backends lists_domains lists_tsig_keys lists_tokens : Endpoint J
  gets_openapi gets_docs gets_redoc gets_metrics gets_healthz logs_out : Endpoint J
  -- Whether the listener accepts, where the app has a DNS probe, and whether the database answers.
  gets_readyz : Option Bool → Bool → Endpoint J
  gets_backend : ℕ → Endpoint J
  lists_events : (limit offset : ℕ) → Endpoint J
  logs_in : Moment → (source password : Text) → Endpoint J
  changes_password : Moment → (current_password new_password : Text) → Endpoint J
  creates_token : (id now : ℕ) → (name token : Text) → Endpoint J
  revokes_token : ℕ → Endpoint J
  changes_rows : Request J → Endpoint J

-- The body of a response, as far as it shows what is stored.
pub data ResponseBody : Type 0 where
  nothing : ResponseBody
  readiness : Ready → ResponseBody
  backends : List BackendRead → ResponseBody
  backend : BackendRead → ResponseBody
  domains : List DomainRead → ResponseBody
  domain : DomainRead → ResponseBody
  tsig_keys : List TsigKeyRead → ResponseBody
  -- `TsigKeyCreated`, with the secret
  tsig_key_created : TsigKeyRead → Text → ResponseBody
  tokens : List ApiTokenRead → ResponseBody
  -- `ApiTokenCreated`, with the token
  api_token_created : ApiTokenRead → Text → ResponseBody
  events : ChallengeEventPage → ResponseBody

-- The session marker of a response is the one that the cookie carries on.
pub record ApiResponse : Type 0 where
  pub status : ℕ
  pub body : ResponseBody
  pub session : Bool

abbrev pub api_v1_prefix : Text
api_v1_prefix = codes "/api/v1"

abbrev get_method : Text
get_method = codes "GET"

abbrev post_method : Text
post_method = codes "POST"

abbrev delete_method : Text
delete_method = codes "DELETE"

module _ {J : Type 0} where
  unfoldable pub rows_method : Request J → Text
  rows_method (creates_backend _ _ _ _) = post_method
  rows_method (updates_backend _ _ _ _) = codes "PATCH"
  rows_method (deletes_backend _) = delete_method
  rows_method (creates_domain _ _ _ _ _) = post_method
  rows_method (deletes_domain _) = delete_method
  rows_method (creates_tsig_key _ _ _ _) = post_method
  rows_method (revokes_tsig_key _) = delete_method

  unfoldable pub endpoint_method : Endpoint J → Text
  unfolding rows_method
  endpoint_method logs_out = post_method
  endpoint_method (logs_in _ _ _) = post_method
  endpoint_method (changes_password _ _ _) = post_method
  endpoint_method (creates_token _ _ _ _) = post_method
  endpoint_method (revokes_token _) = delete_method
  endpoint_method (changes_rows request) = rows_method request
  endpoint_method _ = get_method

  -- The routers and routes with `dependencies=[Depends(require_admin)]`.
  unfoldable pub depends_on_admin : Endpoint J → Bool
  depends_on_admin gets_health = false
  depends_on_admin gets_metrics = false
  depends_on_admin gets_healthz = false
  depends_on_admin (gets_readyz _ _) = false
  depends_on_admin (logs_in _ _ _) = false
  depends_on_admin logs_out = false
  depends_on_admin _ = true

  module _ (str : ℕ → Text) where
    unfoldable pub rows_path : Request J → Text
    rows_path (creates_backend _ _ _ _) = codes "/backends"
    rows_path (updates_backend _ backend_id _ _) = codes "/backends/" ++ str backend_id
    rows_path (deletes_backend backend_id) = codes "/backends/" ++ str backend_id
    rows_path (creates_domain _ _ _ _ _) = codes "/domains"
    rows_path (deletes_domain domain_id) = codes "/domains/" ++ str domain_id
    rows_path (creates_tsig_key _ _ _ _) = codes "/tsig-keys"
    rows_path (revokes_tsig_key tsig_key_id) = codes "/tsig-keys/" ++ str tsig_key_id

    unfoldable pub endpoint_path : Endpoint J → Text
    unfolding rows_path
    endpoint_path gets_health = codes "/api/v1/health"
    endpoint_path gets_session = codes "/api/v1/auth/session"
    endpoint_path (logs_in _ _ _) = codes "/api/v1/auth/login"
    endpoint_path logs_out = codes "/api/v1/auth/logout"
    endpoint_path (changes_password _ _ _) = codes "/api/v1/auth/password"
    endpoint_path lists_backends = codes "/api/v1/backends"
    endpoint_path (gets_backend backend_id) = codes "/api/v1/backends/" ++ str backend_id
    endpoint_path lists_domains = codes "/api/v1/domains"
    endpoint_path lists_tsig_keys = codes "/api/v1/tsig-keys"
    endpoint_path lists_tokens = codes "/api/v1/tokens"
    endpoint_path (creates_token _ _ _ _) = codes "/api/v1/tokens"
    endpoint_path (revokes_token token_id) = codes "/api/v1/tokens/" ++ str token_id
    endpoint_path (lists_events _ _) = codes "/api/v1/events"
    endpoint_path (changes_rows request) = codes "/api/v1" ++ rows_path request
    endpoint_path gets_openapi = codes "/openapi.json"
    endpoint_path gets_docs = codes "/docs"
    endpoint_path gets_redoc = codes "/redoc"
    endpoint_path gets_metrics = codes "/metrics"
    endpoint_path gets_healthz = codes "/healthz"
    endpoint_path (gets_readyz _ _) = codes "/readyz"
