-- ===== src/Api/Pipeline/Admission.antt =====
-- Whom the routes admit, and what an admission changes.
use astropath_dns_relay.Prelude.{
  ℕ, Bool, true, false, ◌≡◌, ◌⊎◌, ◌↔◌, inl, inr, refl, sym, ◌∙◌, Option, none, some, Text, contains,
  text_eq, arith, Bool-cases, Option-cases,
}
use mathlib.Core.Bool.{true≢false}
use astropath_dns_relay.Api.Auth.{AuthStore, require_admin, api_token_valid, keep_stamp, stamp}
use astropath_dns_relay.Api.Auth.Access.{IsKnown, store_digests, require_admin_iff}
use astropath_dns_relay.Api.Csrf.{safe_methods}
use astropath_dns_relay.Api.Views.{is_some}
use astropath_dns_relay.Api.Endpoints.{Management, ApiResponse, endpoint_method, depends_on_admin}
use astropath_dns_relay.Api.Endpoints.Serve.{handle_endpoint}
use astropath_dns_relay.Api.Endpoints.Safe.{handle_endpoint_safe}
use astropath_dns_relay.Api.Endpoints.Public.{IsPublic, IsPublic-iff}
use astropath_dns_relay.Api.Pipeline.{
  WebRequest, Services, session_of, refusal, guarded, admission, routed_call,
}

-- The hash of the admin's password that is stored.
abbrev pub stored_admin : Option AuthStore → Option Text
stored_admin none = none
stored_admin (some store) = store.admin

-- Nothing that the management plane keeps has changed, except for the times of the last uses of tokens.
pub record IsKept {S T : Type 0} (m m' : Management S T) : Type 0 where
  pub tables : m'.tables ≡ m.tables
  pub cache : m'.cache ≡ m.cache
  pub limiter : m'.limiter ≡ m.limiter
  pub admin : stored_admin m'.store ≡ stored_admin m.store
  pub digests : store_digests m'.store ≡ store_digests m.store
  pub events : m'.events ≡ m.events

pub IsKept-refl : {S T : Type 0} (m : Management S T) → IsKept m m
IsKept-refl m = record {
  tables = refl;
  cache = refl;
  limiter = refl;
  admin = refl;
  digests = refl;
  events = refl;
}

require_admin_stored :
    (hash_token : Text → Text) (now : ℕ) (cookie session : Bool) (api_key : Option Text)
    (store : Option AuthStore)
    → let out = require_admin hash_token now cookie session api_key store in
      (stored_admin out.1 ≡ stored_admin store) × ((out.0 ≡ false) → out.1 ≡ store)
unfolding require_admin api_token_valid keep_stamp
require_admin_stored hash_token now cookie session none store = (refl, λ _. refl)
require_admin_stored hash_token now cookie session (some key) none =
    (ground arith, λ _. ground arith)
require_admin_stored hash_token now cookie session (some key) (some store) =
    elim (Option-cases (stamp now (hash_token key) store.tokens)) [
      | inl unknown ↦ (ground arith, λ _. ground arith)
      | inr (tokens, known) ↦ (ground arith, λ h. ground arith)
    ]

module _ {S T J : Type 0} (services : Services S T J) where
  -- The admin: a session, or an API key whose digest is stored.
  abbrev pub IsAdmin : WebRequest J → Management S T → Type 0
  IsAdmin call m =
      (is_some call.cookie ≡ true) × (session_of services call.cookie ≡ true)
      ⊎ IsKnown services.hash_token call.x_api_key m.store

  abbrev pub IsAdmitted : WebRequest J → Management S T → Type 0
  IsAdmitted call m = IsPublic call.endpoint ⊎ IsAdmin call m

  admission_lem :
      (call : WebRequest J) (m : Management S T)
      → let out = admission services call m in
        ((out.0 ≡ true) ↔ IsAdmitted call m)
        × (store_digests out.1 ≡ store_digests m.store)
        × (stored_admin out.1 ≡ stored_admin m.store)
        × ((out.0 ≡ false) → out.1 ≡ m.store)
  unfolding admission
  admission_lem call m =
      let session = session_of services call.cookie in
      let (admits, digests) =
        require_admin_iff services.hash_token call.now (is_some call.cookie) session call.x_api_key
          m.store in
      let (admin, refused) =
        require_admin_stored services.hash_token call.now (is_some call.cookie) session
          call.x_api_key m.store in
      elim (Bool-cases (depends_on_admin call.endpoint)) [
        | inr free ↦
            rw free
              ((λ _. inl ((IsPublic-iff call.endpoint).0 free), λ _. refl), refl, refl, λ _. refl)
        | inl needed ↦ rw needed (
          (
            λ h. inr (admits.0 h),
            λ h. elim h [
              | inl e ↦ absurd (true≢false (sym needed ∙ (IsPublic-iff call.endpoint).1 e))
              | inr k ↦ admits.1 k
            ],
          ),
          digests,
          admin,
          refused,
        )
      ]

  -- What the handler of an endpoint starts from, and its answer.
  abbrev pub admitted_state : WebRequest J → Management S T → Management S T
  admitted_state call m = record m { store = (admission services call m).1 }

  abbrev pub served : WebRequest J → Management S T → ApiResponse × Management S T
  served call m =
      handle_endpoint services.load_tables services.kek services.json services.schemas
        services.argon2 services.hash_token call.endpoint (session_of services call.cookie)
        (admitted_state call m)

  pub route_outcome :
      (call : WebRequest J) (m : Management S T)
      → ((¬ IsAdmitted call m)
          × (routed_call services call m
              ≡ (refusal services (session_of services call.cookie) 401, m)))
        ⊎ (IsAdmitted call m × (routed_call services call m ≡ served call m))
  unfolding routed_call guarded
  route_outcome call m =
      let (admits, digests, admin, refused) = admission_lem call m in
      elim (Bool-cases (admission services call m).0) [
        | inl yes_ ↦ inr (admits.0 yes_, rw yes_ refl)
        | inr no_ ↦ inl (λ h. cc (admits.1 h), rw (no_, refused no_) refl)
      ]

  pub admitted-IsKept :
      (call : WebRequest J) (m : Management S T) → IsKept m (admitted_state call m)
  admitted-IsKept call m =
      let (admits, digests, admin, refused) = admission_lem call m in
      record {
        tables = refl;
        cache = refl;
        limiter = refl;
        admin = admin;
        digests = digests;
        events = refl;
      }

  pub served_safe :
      (call : WebRequest J) (m : Management S T)
      → contains safe_methods (endpoint_method call.endpoint) ≡ true
      → (served call m).1 ≡ admitted_state call m
  served_safe call m safe =
      handle_endpoint_safe services.load_tables services.kek services.json services.schemas
        services.argon2 services.hash_token call.endpoint (session_of services call.cookie)
        (admitted_state call m) safe
