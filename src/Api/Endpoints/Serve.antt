-- ===== src/Api/Endpoints/Serve.antt =====
-- What the handler of each endpoint answers, for a caller whom the guards let through.
use astropath_dns_relay.Prelude.{
  ℕ, Bool, Option, none, some, List, [], ◌∷◌, Text, true, false, nat_eq, ◌==◌, ltb, if◌then◌else◌,
}
use astropath_dns_relay.Models.{Tables}
use astropath_dns_relay.Store.{Kek, Json}
use astropath_dns_relay.Audit.{list_events}
use astropath_dns_relay.Api.Auth.{ApiToken, AuthStore, Argon2}
use astropath_dns_relay.Api.Login.{LoginState, login, logout, change_password}
use astropath_dns_relay.Api.Tokens.{build_api_token, create_api_token, revoke_api_token}
use astropath_dns_relay.Api.App.{Probes, readyz, dns_ready}
use astropath_dns_relay.Api.Rows.{
  Schemas, Request, creates_backend, updates_backend, deletes_backend, creates_domain,
  deletes_domain, creates_tsig_key, revokes_tsig_key, respond,
}
use astropath_dns_relay.Api.Views.{
  list_backends, read_backend, list_domains, domain_read, list_tsig_keys, tsig_key_read,
  list_api_tokens, api_token_read,
}
use astropath_dns_relay.Api.Endpoints.{
  Management, Endpoint, gets_health, gets_session, lists_backends, lists_domains, lists_tsig_keys,
  lists_tokens, gets_openapi, gets_docs, gets_redoc, gets_metrics, gets_healthz, logs_out,
  gets_readyz, gets_backend, lists_events, logs_in, changes_password, creates_token, revokes_token,
  changes_rows, ResponseBody, nothing, readiness, backends, backend, domains, domain, tsig_keys,
  tsig_key_created, tokens, api_token_created, events, ApiResponse,
}

-- `session.refresh(row)`: the row of an id.
unfoldable pub reread : {A : Type 0} → (A → ℕ) → List A → ℕ → Option A
reread id [] i = none
reread id (row ∷ rows) i = if id row == i then some row else reread id rows i

-- `RoutingCache.is_populated`, false for an app without a cache.
abbrev pub cache_populated : {S : Type 0} → Option (Option S) → Bool
cache_populated none = false
cache_populated (some none) = false
cache_populated (some (some snapshot)) = true

abbrev pub body_of : {A : Type 0} → (A → ResponseBody) → Option A → ResponseBody
body_of body none = nothing
body_of body (some a) = body a

module _ {T J : Type 0} where
  -- The body of a change that succeeded, from the tables after it.
  unfoldable pub row_body : Request J → Tables T → ResponseBody
  unfolding read_backend reread domain_read tsig_key_read
  row_body (creates_backend fresh _ _ _) tables =
      body_of (λ row. backend row) (read_backend fresh.id tables.backends)
  row_body (updates_backend _ backend_id _ _) tables =
      body_of (λ row. backend row) (read_backend backend_id tables.backends)
  row_body (deletes_backend _) tables = nothing
  row_body (creates_domain fresh _ _ _ _) tables =
      body_of (λ row. domain (domain_read row)) (reread (λ row. row.id) tables.domains fresh.id)
  row_body (deletes_domain _) tables = nothing
  row_body (creates_tsig_key fresh _ _ secret_b64) tables =
      body_of (λ row. tsig_key_created (tsig_key_read row) secret_b64)
        (reread (λ row. row.id) tables.tsig_keys fresh.id)
  row_body (revokes_tsig_key _) tables = nothing

module _ {S T : Type 0} where
  abbrev answer : ℕ → ResponseBody → Bool → Management S T → ApiResponse × Management S T
  answer status body session m = (record { status = status; body = body; session = session }, m)

  -- The probes of `/readyz`: `_dns_ready` of main.py reads the cache that the app has.
  unfoldable pub probes_of : Option Bool → Bool → Management S T → Probes
  unfolding dns_ready
  probes_of accepting answers m = record {
    dns_readiness = elim accepting [
      | none ↦ none
      | some a ↦ some (dns_ready a (cache_populated m.cache))
    ];
    is_populated = elim m.cache [ none ↦ none | some c ↦ some (cache_populated (some c)) ];
    ping = elim m.store [ none ↦ none | some _ ↦ some answers ];
  }

  -- A handler that takes `get_session`, which raises without a database.
  unfoldable pub with_database :
      Bool
      → Management S T
      → (AuthStore → ApiResponse × Management S T)
      → ApiResponse × Management S T
  with_database session m handler = elim m.store [
    | none ↦ answer 500 nothing session m
    | some store ↦ handler store
  ]

  abbrev pub login_state : Bool → Management S T → LoginState
  login_state session m = record { limiter = m.limiter; store = m.store; session = session }

  -- The answer of a handler of api/routes_auth.py.
  abbrev pub auth_answer : Management S T → ℕ × LoginState → ApiResponse × Management S T
  auth_answer m (status, s) =
      answer status nothing s.session (record m { limiter = s.limiter; store = s.store })

  unfoldable pub token_answer :
      Bool → Management S T → ApiToken → ℕ × AuthStore × Option Text → ApiResponse × Management S T
  unfolding api_token_read
  token_answer session m row (status, store, shown) =
      answer status (body_of (λ token. api_token_created (api_token_read row) token) shown) session
        (record m { store = some store })

  module _ {J : Type 0} (load : Tables T → Option S) (kek : Kek T) (json : Json J)
      (schemas : Schemas J) (argon2 : Argon2) (hash_token : Text → Text) where
    unfoldable pub handle_endpoint :
        Endpoint J → Bool → Management S T → ApiResponse × Management S T
    unfolding with_database row_body token_answer build_api_token create_api_token revoke_api_token
        login logout change_password respond list_backends read_backend list_domains list_tsig_keys
        list_api_tokens list_events readyz probes_of
    handle_endpoint gets_health session m = answer 200 nothing session m
    handle_endpoint gets_session session m = answer 200 nothing session m
    handle_endpoint gets_openapi session m = answer 200 nothing session m
    handle_endpoint gets_docs session m = answer 200 nothing session m
    handle_endpoint gets_redoc session m = answer 200 nothing session m
    handle_endpoint gets_metrics session m = answer 200 nothing session m
    handle_endpoint gets_healthz session m = answer 200 nothing session m
    handle_endpoint (gets_readyz accepting answers) session m =
        let r = readyz (probes_of accepting answers m) in answer r.status (readiness r) session m
    handle_endpoint lists_backends session m =
        with_database session m
          (λ _. answer 200 (backends (list_backends m.tables.backends)) session m)
    handle_endpoint (gets_backend backend_id) session m = with_database session m (λ _.
        elim (read_backend backend_id m.tables.backends) [
          | none ↦ answer 404 nothing session m
          | some row ↦ answer 200 (backend row) session m
        ])
    handle_endpoint lists_domains session m =
        with_database session m
          (λ _. answer 200 (domains (list_domains m.tables.domains)) session m)
    handle_endpoint lists_tsig_keys session m =
        with_database session m
          (λ _. answer 200 (tsig_keys (list_tsig_keys m.tables.tsig_keys)) session m)
    handle_endpoint lists_tokens session m =
        with_database session m
          (λ store. answer 200 (tokens (list_api_tokens store.tokens)) session m)
    handle_endpoint (lists_events limit offset) session m = with_database session m (λ _.
        elim (list_events limit offset m.events) [
          | none ↦ answer 422 nothing session m
          | some page ↦ answer 200 (events page) session m
        ])
    handle_endpoint (logs_in t source password) session m =
        auth_answer m (login argon2 t source password (login_state session m))
    handle_endpoint logs_out session m = auth_answer m (logout argon2 (login_state session m))
    handle_endpoint (changes_password t current_password new_password) session m =
        auth_answer m
          (change_password argon2 t current_password new_password (login_state session m))
    handle_endpoint (creates_token id now name token) session m = with_database session m (λ store.
        token_answer session m (build_api_token hash_token id now name token).0
          (create_api_token hash_token id now name token store))
    handle_endpoint (revokes_token token_id) session m = with_database session m (λ store.
        let (status, store') = revoke_api_token token_id store in
        answer status nothing session (record m { store = some store' }))
    handle_endpoint (changes_rows request) session m = with_database session m (λ _.
        let (status, (tables, cache)) = respond load kek json schemas request (m.tables, m.cache) in
        answer status (if ltb status 300 then row_body request tables else nothing) session
          (record m { tables = tables; cache = cache }))
