-- ===== src/Api/Endpoints/Safe.antt =====
-- The safe methods change nothing, and the others stand under the protected prefix.
use astropath_dns_relay.Prelude.{
  ℕ, Bool, true, false, ◌≡◌, refl, Option, Text, contains, text_eq, text_beq, arith, Option-cases,
  inl, inr,
}
use astropath_dns_relay.Models.{Tables}
use astropath_dns_relay.Store.{Kek, Json}
use astropath_dns_relay.Audit.{list_events}
use astropath_dns_relay.Api.Auth.{AuthStore, Argon2}
use astropath_dns_relay.Api.Csrf.{safe_methods, starts_with}
use astropath_dns_relay.Api.Rows.{
  Schemas, Request, creates_backend, updates_backend, deletes_backend, creates_domain,
  deletes_domain, creates_tsig_key, revokes_tsig_key,
}
use astropath_dns_relay.Api.Views.{read_backend}
use astropath_dns_relay.Api.Endpoints.{
  Management, Endpoint, lists_backends, lists_domains, lists_tsig_keys, lists_tokens, logs_out,
  gets_backend, lists_events, logs_in, changes_password, creates_token, revokes_token, changes_rows,
  ApiResponse, api_v1_prefix, rows_method, endpoint_method, endpoint_path,
}
use astropath_dns_relay.Api.Endpoints.Serve.{with_database, handle_endpoint}

module _ {J : Type 0} where
  pub rows_unsafe : (request : Request J) → contains safe_methods (rows_method request) ≡ false
  unfolding rows_method contains text_beq
  rows_unsafe (creates_backend _ _ _ _) = refl
  rows_unsafe (updates_backend _ _ _ _) = refl
  rows_unsafe (deletes_backend _) = refl
  rows_unsafe (creates_domain _ _ _ _ _) = refl
  rows_unsafe (deletes_domain _) = refl
  rows_unsafe (creates_tsig_key _ _ _ _) = refl
  rows_unsafe (revokes_tsig_key _) = refl

module _ {J : Type 0} (str : ℕ → Text) where
  -- An endpoint with another method has a protected path.
  pub unsafe_prefix :
      (endpoint : Endpoint J)
      → contains safe_methods (endpoint_method endpoint) ≡ false
      → starts_with api_v1_prefix (endpoint_path str endpoint) ≡ true
  unfolding endpoint_method endpoint_path starts_with contains text_beq
  unsafe_prefix logs_out h = refl
  unsafe_prefix (logs_in _ _ _) h = refl
  unsafe_prefix (changes_password _ _ _) h = refl
  unsafe_prefix (creates_token _ _ _ _) h = refl
  unsafe_prefix (revokes_token _) h = refl
  unsafe_prefix (changes_rows request) h = refl
  unsafe_prefix _ h = cc

module _ {S T J : Type 0} (load : Tables T → Option S) (kek : Kek T) (json : Json J)
    (schemas : Schemas J) (argon2 : Argon2) (hash_token : Text → Text) where
  with_database_keeps :
      (session : Bool) (m : Management S T) (handler : AuthStore → ApiResponse × Management S T)
      → ((store : AuthStore) → (handler store).1 ≡ m)
      → (with_database session m handler).1 ≡ m
  unfolding with_database
  with_database_keeps session m handler h = elim (Option-cases m.store) [
    | inl absent ↦ ground arith
    | inr (store, there) ↦ ground (arith, h store)
  ]

  pub handle_endpoint_safe :
      (endpoint : Endpoint J) (session : Bool) (m : Management S T)
      → contains safe_methods (endpoint_method endpoint) ≡ true
      → (handle_endpoint load kek json schemas argon2 hash_token endpoint session m).1 ≡ m
  unfolding handle_endpoint endpoint_method contains text_beq
  handle_endpoint_safe logs_out session m h = cc
  handle_endpoint_safe (logs_in _ _ _) session m h = cc
  handle_endpoint_safe (changes_password _ _ _) session m h = cc
  handle_endpoint_safe (creates_token _ _ _ _) session m h = cc
  handle_endpoint_safe (revokes_token _) session m h = cc
  handle_endpoint_safe (changes_rows request) session m h = cc (rows_unsafe request)
  handle_endpoint_safe (gets_backend i) session m h = with_database_keeps session m _ (λ _.
      elim (Option-cases (read_backend i m.tables.backends)) [
        | inl absent ↦ rw absent refl
        | inr (row, there) ↦ rw there refl
      ])
  handle_endpoint_safe (lists_events limit offset) session m h =
      with_database_keeps session m _ (λ _.
        elim (Option-cases (list_events limit offset m.events)) [
          | inl absent ↦ rw absent refl
          | inr (page, there) ↦ rw there refl
        ])
  handle_endpoint_safe lists_backends session m h = with_database_keeps session m _ (λ _. refl)
  handle_endpoint_safe lists_domains session m h = with_database_keeps session m _ (λ _. refl)
  handle_endpoint_safe lists_tsig_keys session m h = with_database_keeps session m _ (λ _. refl)
  handle_endpoint_safe lists_tokens session m h = with_database_keeps session m _ (λ _. refl)
  handle_endpoint_safe _ session m h = refl
