-- ===== src/Api/Pipeline.antt =====
-- api/app.py: the order of the guards around the handlers. `CsrfOriginMiddleware` stands outside the
-- sessions, and these outside the routes with `require_admin`. The signature check of the session
-- cookie is a parameter, which gives the admin marker of its session.
pub mod Admission
pub mod Guards
use astropath_dns_relay.Prelude.{
  ℕ, Bool, true, false, not, Option, none, some, Text, text_eq, if◌then◌else◌,
}
use astropath_dns_relay.Models.{Tables}
use astropath_dns_relay.Store.{Kek, Json}
use astropath_dns_relay.Api.Auth.{AuthStore, Argon2, require_admin}
use astropath_dns_relay.Api.Csrf.{Request, csrf_dispatch}
use astropath_dns_relay.Api.Rows.{Schemas}
use astropath_dns_relay.Api.Endpoints.{
  Management, Endpoint, nothing, ApiResponse, api_v1_prefix, endpoint_method, endpoint_path,
  depends_on_admin,
}
use astropath_dns_relay.Api.Endpoints.Serve.{handle_endpoint}
use astropath_dns_relay.Api.Views.{is_some}

-- A request for an endpoint; the cookie is none where it is absent or empty.
pub record WebRequest (J : Type 0) : Type 0 where
  pub endpoint : Endpoint J
  pub origin : Option Text
  pub referer : Option Text
  pub x_api_key : Option Text
  pub cookie : Option Text
  pub now : ℕ

-- What the management plane is built from.
pub record Services (S T J : Type 0) : Type 0 where
  pub urlsplit : Text → Text × Text
  pub str : ℕ → Text
  pub unsign : Text → Bool
  pub hash_token : Text → Text
  pub argon2 : Argon2
  pub kek : Kek T
  pub json : Json J
  pub schemas : Schemas J
  pub load_tables : Tables T → Option S
  pub management_origin : Option Text

-- What the origin check reads of a request.
abbrev pub head_of : {J : Type 0} → (ℕ → Text) → WebRequest J → Request
head_of str call = record {
  method = endpoint_method call.endpoint;
  path = endpoint_path str call.endpoint;
  origin = call.origin;
  referer = call.referer;
  x_api_key = call.x_api_key;
}

module _ {S T J : Type 0} (services : Services S T J) where
  open services use {
    urlsplit, str, unsign, hash_token, argon2, kek, json, schemas, load_tables, management_origin,
  }

  -- The session of a request: the marker of its cookie.
  unfoldable pub session_of : Option Text → Bool
  session_of none = false
  session_of (some cookie) = unsign cookie

  unfoldable pub refusal : Bool → ℕ → ApiResponse
  refusal session status = record { status = status; body = nothing; session = session }

  -- The route of an endpoint, after its dependencies.
  unfoldable pub guarded :
      Endpoint J → Bool → Bool × Option AuthStore → Management S T → ApiResponse × Management S T
  unfolding handle_endpoint refusal
  guarded endpoint session (admitted, store) m =
      let m' : Management S T = record m { store = store } in
      if admitted
      then handle_endpoint load_tables kek json schemas argon2 hash_token endpoint session m'
      else (refusal session 401, m')

  -- The dependency `require_admin` of the routes that have it.
  unfoldable pub admission : WebRequest J → Management S T → Bool × Option AuthStore
  unfolding require_admin session_of depends_on_admin
  admission call m =
      if depends_on_admin call.endpoint
      then require_admin hash_token call.now (is_some call.cookie) (session_of call.cookie)
          call.x_api_key m.store
      else (true, m.store)

  unfoldable pub routed_call : WebRequest J → Management S T → ApiResponse × Management S T
  unfolding guarded admission session_of
  routed_call call m = guarded call.endpoint (session_of call.cookie) (admission call m) m

  -- The application that `create_app` wires.
  unfoldable pub manage : WebRequest J → Management S T → ApiResponse × Management S T
  unfolding routed_call csrf_dispatch refusal session_of
  manage call m =
      csrf_dispatch urlsplit management_origin api_v1_prefix (refusal (session_of call.cookie))
        (λ _. routed_call call) (head_of str call) m
