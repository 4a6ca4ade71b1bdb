-- ===== src/Api/Rows/Outcome.antt =====
-- What a request leaves behind, by its status code.
use astropath_dns_relay.Prelude.{
  ℕ, ◌≡◌, Option, none, some, Text, nat_eq, text_eq, ltb, arith, ◌<◌, ◌≤◌, refl, Bool-cases,
  Option-cases, inl, inr, ◌⊎◌,
}
use astropath_dns_relay.Prelude.Result.{Result, ok, err}
use astropath_dns_relay.Models.{Backend, Tables}
use astropath_dns_relay.Store.{Kek, Json, build_backend}
use astropath_dns_relay.Api.Rows.{
  Schemas, Request, creates_backend, updates_backend, deletes_backend, creates_domain,
  deletes_domain, creates_tsig_key, revokes_tsig_key, validated_config, get_backend, restamp,
  add_backend, delete_backend, delete_domain, revoke_tsig_key, commit_backend, create_domain,
  create_tsig_key, create_backend, new_config, update_backend, handle, refresh_routing_cache,
  respond,
}

module _ {S : Type 0} where
  -- The cache after a refresh, by the outcome of the load and the cache before.
  abbrev pub IsRefreshed : Option S → Option (Option S) → Option (Option S) → Type 0
  IsRefreshed loaded none after = after ≡ none
  IsRefreshed none (some cache) after = after ≡ some cache
  IsRefreshed (some snapshot) (some cache) after = after ≡ some (some snapshot)

  refresh_lem :
      (loaded : Option S) (cache : Option (Option S))
      → IsRefreshed loaded cache (refresh_routing_cache loaded cache)
  unfolding refresh_routing_cache
  refresh_lem none none = refl
  refresh_lem (some snapshot) none = refl
  refresh_lem none (some cache) = refl
  refresh_lem (some snapshot) (some cache) = refl

module _ {T : Type 0} where
  -- An answer that is an error leaves the tables as they were.
  abbrev Refuses : Tables T → ℕ × Tables T → Type 0
  Refuses tables answer = 300 ≤ answer.0 → answer.1 ≡ tables

  add_backend-Refuses :
      (o : Option (Backend T)) (tables : Tables T) → Refuses tables (add_backend o tables)
  unfolding add_backend
  add_backend-Refuses none tables h = refl
  add_backend-Refuses (some row) tables h = ground arith

  commit_backend-Refuses :
      (i : ℕ) (name : Text) (now : ℕ) (r : Result ℕ T) (tables : Tables T)
      → Refuses tables (commit_backend i name now r tables)
  unfolding commit_backend
  commit_backend-Refuses i name now (err status) tables h = refl
  commit_backend-Refuses i name now (ok token) tables h = ground arith

  module _ (kek : Kek T) {J : Type 0} (json : Json J) (schemas : Schemas J) where
    handle-Refuses :
        (request : Request J) (tables : Tables T)
        → Refuses tables (handle kek json schemas request tables)
    unfolding handle create_backend update_backend delete_backend create_domain delete_domain
        create_tsig_key revoke_tsig_key
    handle-Refuses (creates_backend fresh name type config) tables h =
        elim (Option-cases (validated_config schemas type config)) [
          | inl invalid ↦ rw (invalid, create_backend) refl
          | inr (config', valid) ↦
              let o = build_backend kek json fresh.noise fresh.id fresh.now name type config' in
              ground (arith, valid, add_backend-Refuses o tables)
        ]
    handle-Refuses (updates_backend fresh i name config) tables h =
        elim (Option-cases (get_backend tables.backends i)) [
          | inl absent ↦ rw (absent, update_backend) refl
          | inr (backend, found) ↦
              let name' : Text = elim name [ none ↦ backend.name | some n ↦ n ] in
              ground (
                arith,
                found,
                commit_backend-Refuses i name'
                    (restamp kek json schemas fresh.now backend name' config)
                    (new_config kek json schemas fresh.noise backend config) tables,
              )
        ]
    handle-Refuses (deletes_backend i) tables h = ground arith
    handle-Refuses (creates_domain fresh zone i record_name key) tables h = ground arith
    handle-Refuses (deletes_domain i) tables h = ground arith
    handle-Refuses (creates_tsig_key fresh name algorithm secret) tables h = ground arith
    handle-Refuses (revokes_tsig_key i) tables h = ground arith

    module _ {S : Type 0} (load : Tables T → Option S) where
      -- A request that is refused, with a status of 300 or more, changes neither the tables nor the
      -- cache. After a request that succeeds, the cache, if the app has one, is the load of the new
      -- tables; where that load fails, it stays as it was.
      pub respond_outcome :
          (request : Request J) (tables : Tables T) (cache : Option (Option S))
          → let out = respond load kek json schemas request (tables, cache) in
            ((300 ≤ out.0) × (out.1 ≡ (tables, cache)))
            ⊎ ((out.0 < 300) × IsRefreshed (load out.1.0) cache out.1.1)
      unfolding respond
      respond_outcome request tables cache =
          elim (Bool-cases (ltb (handle kek json schemas request tables).0 300)) [
            | inl done ↦ inr (
              ground arith,
              rw done (refresh_lem (load (handle kek json schemas request tables).1) cache),
            )
            | inr refused ↦ inl (ground arith, ground (arith, handle-Refuses request tables))
          ]
