-- ===== src/Api/Rows.antt =====
-- api/routes_backends.py, routes_domains.py, routes_tsig.py: the handlers that change the tables of the
-- configuration, and the refresh of the cache after a write (api/deps.py). A handler answers its status
-- code and the tables after its transaction, 500 for an exception that it does not handle. A commit
-- that breaks a unique column raises IntegrityError and is rolled back. Ids, clock readings, nonces and
-- new secrets are arguments; the bodies have passed the request schemas of FastAPI.
pub mod Sound
pub mod Commits
pub mod Requests
pub mod Outcome
pub mod Loads
use astropath_dns_relay.Prelude.{
  ℕ, Bool, true, false, not, ◌||◌, Eq, Option, none, some, List, [], ◌∷◌, ◌++◌, Text, nat_eq,
  text_eq, ◌==◌, ltb, keep, if◌then◌else◌,
}
use astropath_dns_relay.Prelude.Result.{Result, ok, err}
use astropath_dns_relay.Models.{Backend, Domain, TsigKey, Tables}
use astropath_dns_relay.Store.{Kek, Json, build_backend, build_domain, build_tsig_key, encrypt_json}
use astropath_dns_relay.DataPlane.Tsig.{algorithm_from_text}
use astropath_dns_relay.Cache.{refresh}

-- Whether a row with a value of a column exists.
unfoldable pub has : {A K : Type 0} ⦃e : Eq K⦄ → (A → K) → List A → K → Bool
has column [] value = false
has column (row ∷ rows) value = column row == value || has column rows value

-- What a write takes from outside.
pub record Fresh : Type 0 where
  pub noise : ℕ
  pub id : ℕ
  pub now : ℕ

-- The provider registry, and the validation of a configuration by pydantic with the dump of its model.
pub record Schemas (J : Type 0) : Type 0 where
  pub is_registered : Text → Bool
  pub model_validate : Text → J → Option J

pub data Request (J : Type 0) : Type 0 where
  creates_backend : Fresh → (name type : Text) → J → Request J
  updates_backend : Fresh → ℕ → Option Text → Option J → Request J
  deletes_backend : ℕ → Request J
  creates_domain : Fresh → (zone : Text) → ℕ → (record_name : Text) → Option Text → Request J
  deletes_domain : ℕ → Request J
  creates_tsig_key : Fresh → (name algorithm secret_b64 : Text) → Request J
  revokes_tsig_key : ℕ → Request J

-- `_validated_config`: none for its 422
unfoldable pub validated_config : {J : Type 0} → Schemas J → Text → J → Option J
validated_config schemas provider_type config =
    if schemas.is_registered provider_type
    then schemas.model_validate provider_type config
    else none

module _ {T : Type 0} where
  -- `session.get(Backend, backend_id)`
  unfoldable pub get_backend : List (Backend T) → ℕ → Option (Backend T)
  get_backend [] backend_id = none
  get_backend (row ∷ rows) backend_id =
      if row.id == backend_id then some row else get_backend rows backend_id

  -- Whether the commit of a changed row finds its new name in another row.
  unfoldable pub name_taken : List (Backend T) → ℕ → Text → Bool
  unfolding has
  name_taken [] backend_id name = false
  name_taken (row ∷ rows) backend_id name =
      if row.id == backend_id
      then has (λ (r : Backend T). r.name) rows name
      else row.name == name || name_taken rows backend_id name

  unfoldable pub write_backend : ℕ → (name : Text) → T → ℕ → List (Backend T) → List (Backend T)
  write_backend backend_id name token now [] = []
  write_backend backend_id name token now (row ∷ rows) =
      if row.id == backend_id
      then record row { name = name; config_encrypted = token; updated_at = now } ∷ rows
      else row ∷ write_backend backend_id name token now rows

  -- The query `referenced` of `delete_backend`.
  abbrev pub is_referenced : List (Domain T) → ℕ → Bool
  is_referenced domains backend_id = has (λ (row : Domain T). row.backend_id) domains backend_id

  -- The commit of a new row, none for the exception of building it.
  unfoldable pub add_backend : Option (Backend T) → Tables T → ℕ × Tables T
  unfolding has
  add_backend none tables = (500, tables)
  add_backend (some row) tables =
      if has (λ (r : Backend T). r.name) tables.backends row.name
      then (409, tables)
      else (201, record tables { backends = tables.backends ++ row ∷ [] })

  unfoldable pub delete_backend : ℕ → Tables T → ℕ × Tables T
  unfolding has keep
  delete_backend backend_id tables =
      if not (has (λ (row : Backend T). row.id) tables.backends backend_id)
      then (404, tables)
      else if is_referenced tables.domains backend_id
      then (409, tables)
      else (
        204,
        record tables { backends = keep (λ row. not (row.id == backend_id)) tables.backends },
      )

  unfoldable pub delete_domain : ℕ → Tables T → ℕ × Tables T
  unfolding has keep
  delete_domain domain_id tables =
      if not (has (λ (row : Domain T). row.id) tables.domains domain_id)
      then (404, tables)
      else (204, record tables { domains = keep (λ row. not (row.id == domain_id)) tables.domains })

  unfoldable pub revoke_tsig_key : ℕ → Tables T → ℕ × Tables T
  unfolding has keep
  revoke_tsig_key tsig_key_id tables =
      if not (has (λ (row : TsigKey T). row.id) tables.tsig_keys tsig_key_id)
      then (404, tables)
      else (
        204,
        record tables { tsig_keys = keep (λ row. not (row.id == tsig_key_id)) tables.tsig_keys },
      )

  -- The commit of a changed row: the token, or the status that ends the request.
  unfoldable pub commit_backend : ℕ → (name : Text) → ℕ → Result ℕ T → Tables T → ℕ × Tables T
  unfolding name_taken write_backend
  commit_backend backend_id name now (err status) tables = (status, tables)
  commit_backend backend_id name now (ok token) tables =
      if name_taken tables.backends backend_id name then (409, tables) else (
        200,
        record tables { backends = write_backend backend_id name token now tables.backends },
      )

  module _ (kek : Kek T) where
    unfoldable pub create_domain :
        Fresh → (zone : Text) → ℕ → (record_name : Text) → Option Text → Tables T → ℕ × Tables T
    unfolding has build_domain
    create_domain fresh zone backend_id record_name he_dynamic_key tables =
        let row =
          build_domain kek fresh.noise fresh.id fresh.now zone backend_id record_name
            he_dynamic_key in
        if not (has (λ (r : Backend T). r.id) tables.backends backend_id)
        then (422, tables)
        else if has (λ (r : Domain T). r.zone) tables.domains zone
        then (409, tables)
        else (201, record tables { domains = tables.domains ++ row ∷ [] })

    unfoldable pub create_tsig_key :
        Fresh → (name algorithm secret_b64 : Text) → Tables T → ℕ × Tables T
    unfolding has build_tsig_key
    create_tsig_key fresh name algorithm secret_b64 tables =
        let row = build_tsig_key kek fresh.noise fresh.id fresh.now name algorithm secret_b64 in
        elim (algorithm_from_text algorithm) [
          | none ↦ (422, tables)
          | some _ ↦
              if has (λ (r : TsigKey T). r.name) tables.tsig_keys name
              then (409, tables)
              else (201, record tables { tsig_keys = tables.tsig_keys ++ row ∷ [] })
        ]

    module _ {J : Type 0} (json : Json J) (schemas : Schemas J) where
      unfoldable pub create_backend : Fresh → (name type : Text) → J → Tables T → ℕ × Tables T
      unfolding validated_config build_backend add_backend
      create_backend fresh name type config tables = elim (validated_config schemas type config) [
        | none ↦ (422, tables)
        | some config' ↦
            add_backend (build_backend kek json fresh.noise fresh.id fresh.now name type config')
              tables
      ]

      -- The column `config_encrypted` of the changed row.
      unfoldable pub new_config : ℕ → Backend T → Option J → Result ℕ T
      unfolding validated_config encrypt_json
      new_config noise backend none = ok backend.config_encrypted
      new_config noise backend (some config) = elim (validated_config schemas backend.type config) [
        | none ↦ err 422
        | some config' ↦ elim (encrypt_json kek json noise config') [
          | none ↦ err 500
          | some token ↦ ok token
        ]
      ]

      -- `updated_at` of the changed row: SQLAlchemy writes no row whose columns are as they were, and
      -- a new token is never the old one.
      unfoldable pub restamp : ℕ → Backend T → Text → Option J → ℕ
      restamp now backend name none = if name == backend.name then backend.updated_at else now
      restamp now backend name (some config) = now

      unfoldable pub update_backend : Fresh → ℕ → Option Text → Option J → Tables T → ℕ × Tables T
      unfolding get_backend commit_backend new_config restamp
      update_backend fresh backend_id name config tables =
          elim (get_backend tables.backends backend_id) [
            | none ↦ (404, tables)
            | some backend ↦
                let name' : Text = elim name [ none ↦ backend.name | some n ↦ n ] in
                commit_backend backend_id name' (restamp fresh.now backend name' config)
                  (new_config fresh.noise backend config) tables
          ]

      unfoldable pub handle : Request J → Tables T → ℕ × Tables T
      unfolding create_backend update_backend delete_backend create_domain delete_domain
          create_tsig_key revoke_tsig_key
      handle (creates_backend fresh name type config) = create_backend fresh name type config
      handle (updates_backend fresh backend_id name config) =
          update_backend fresh backend_id name config
      handle (deletes_backend backend_id) = delete_backend backend_id
      handle (creates_domain fresh zone backend_id record_name he_dynamic_key) =
          create_domain fresh zone backend_id record_name he_dynamic_key
      handle (deletes_domain domain_id) = delete_domain domain_id
      handle (creates_tsig_key fresh name algorithm secret_b64) =
          create_tsig_key fresh name algorithm secret_b64
      handle (revokes_tsig_key tsig_key_id) = revoke_tsig_key tsig_key_id

-- `refresh_routing_cache`, with the outcome of the load; none for an app without a cache.
unfoldable pub refresh_routing_cache :
    {S : Type 0} → Option S → Option (Option S) → Option (Option S)
unfolding refresh
refresh_routing_cache loaded none = none
refresh_routing_cache loaded (some cache) = some (refresh loaded cache).1

module _ {S T J : Type 0} (load : Tables T → Option S) (kek : Kek T) (json : Json J)
    (schemas : Schemas J) where
  -- A handler reaches its last line, the refresh, only with a status of success.
  unfoldable pub respond :
      Request J → Tables T × Option (Option S) → ℕ × (Tables T × Option (Option S))
  unfolding handle refresh_routing_cache
  respond request (tables, cache) =
      let (status, tables') = handle kek json schemas request tables in
      if ltb status 300
      then (status, (tables', refresh_routing_cache (load tables') cache))
      else (status, (tables', cache))

  unfoldable pub respond_all :
      List (Request J) → Tables T × Option (Option S) → Tables T × Option (Option S)
  unfolding respond
  respond_all [] state = state
  respond_all (request ∷ requests) state = respond_all requests (respond request state).1
