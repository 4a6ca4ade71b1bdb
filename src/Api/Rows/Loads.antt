-- ===== src/Api/Rows/Loads.antt =====
-- The configuration loads from the tables that the handlers keep sound.
use astropath_dns_relay.Prelude.{
  ℕ, true, ◌≡◌, refl, inl, inr, Option, some, List, [], ◌∷◌, foldl, All, nat_eq, ◌==◌, arith,
  Bool-cases,
}
use astropath_dns_relay.Prelude.Dict.{Dict, lookup, insert, lookup-insert}
use astropath_dns_relay.Prelude.Optional.{traverse}
use astropath_dns_relay.Models.{Backend, Domain, TsigKey, Tables}
use astropath_dns_relay.Store.{Kek, Json, decrypt_text, decrypt_json}
use astropath_dns_relay.Assembly.{BootstrapConfig}
use astropath_dns_relay.Cache.{
  add_row, backend_by_id, spec_of, backend_config_of, key_of_row, zone_config_of,
  load_config_from_db,
}
use astropath_dns_relay.Api.Rows.{has, Schemas, Request, respond_all}
use astropath_dns_relay.Api.Rows.Requests.{respond_all-IsSound}
use astropath_dns_relay.Api.Rows.Sound.{IsSound, AreServed, backend_id_of}

abbrev Returns {ℓ} : {A : Type ℓ} → Option A → Type ℓ
Returns {A = A} o = (a : A) × (o ≡ some a)

traverse-Returns :
    {A B : Type 0} (f : A → Option B) (xs : List A)
    → All (λ x. Returns (f x)) xs
    → Returns (traverse f xs)
unfolding traverse
traverse-Returns f [] h = ([], refl)
traverse-Returns f (x ∷ xs) ((y, e), rest) =
    let (ys, es) = traverse-Returns f xs rest in (y ∷ ys, rw (e, es) refl)

module _ {T J : Type 0} (kek : Kek T) (json : Json J) where
  -- A row that is there stays, or is replaced by another one of its id.
  kept_row :
      (rows : List (Backend T)) (d : Dict ℕ (Backend T)) (i : ℕ)
      → Returns (lookup i d)
      → Returns (lookup i (foldl (add_row kek json) d rows))
  kept_row [] d i h = h
  kept_row (row ∷ rows) d i (b, e) =
      kept_row rows (insert row.id row d) i (elim (Bool-cases (row.id == i)) [
        | inl same ↦ (row, ground (arith, lookup-insert row.id i row d))
        | inr other ↦ (b, ground (arith, lookup-insert row.id i row d))
      ])

  found_row :
      (rows : List (Backend T)) (d : Dict ℕ (Backend T)) (i : ℕ)
      → has backend_id_of rows i ≡ true
      → Returns (lookup i (foldl (add_row kek json) d rows))
  unfolding has
  found_row [] d i h = absurd (ground arith)
  found_row (row ∷ rows) d i h = elim (Bool-cases (row.id == i)) [
    | inl same ↦
        kept_row rows (insert row.id row d) i (row, ground (arith, lookup-insert row.id i row d))
    | inr other ↦ found_row rows (insert row.id row d) i (ground arith)
  ]

  -- Every encrypted column can be decrypted.
  pub record AreReadable (tables : Tables T) : Type 0 where
    pub configs :
        All
          (λ (row : Backend T). Returns (decrypt_json kek json row.config_encrypted))
          tables.backends
    pub dynamic_keys :
        All (λ (row : Domain T). Returns (key_of_row kek json row.secret_encrypted)) tables.domains
    pub tsig_secrets :
        All (λ (row : TsigKey T). Returns (decrypt_text kek row.secret_encrypted)) tables.tsig_keys

  zones_return :
      (tables : Tables T) (domains : List (Domain T))
      → AreServed tables.backends domains
      → All (λ (row : Domain T). Returns (key_of_row kek json row.secret_encrypted)) domains
      → All
          (λ (row : Domain T).
            Returns (zone_config_of kek json (backend_by_id kek json tables.backends) row))
          domains
  unfolding zone_config_of backend_by_id
  zones_return tables [] served keys = tt
  zones_return tables (row ∷ domains) (here, served) ((key, e), keys) =
      let (backend, found) = found_row tables.backends [] row.backend_id here in
      (
        (
          record {
            zone = row.zone;
            provider = backend.type;
            record_name = row.record_name;
            he_dynamic_key = key;
            backend = some backend.name;
          },
          rw (found, e) refl,
        ),
        zones_return tables domains served keys,
      )

  backends_return :
      (rows : List (Backend T))
      → All (λ (row : Backend T). Returns (decrypt_json kek json row.config_encrypted)) rows
      → All (λ (row : Backend T). Returns (backend_config_of kek json row)) rows
  unfolding backend_config_of
  backends_return [] h = tt
  backends_return (row ∷ rows) ((config, e), rest) = (
    (record { name = row.name; provider = row.type; config = config }, rw e refl),
    backends_return rows rest,
  )

  keys_return :
      (rows : List (TsigKey T))
      → All (λ (row : TsigKey T). Returns (decrypt_text kek row.secret_encrypted)) rows
      → All (λ (row : TsigKey T). Returns (spec_of kek json row)) rows
  unfolding spec_of
  keys_return [] h = tt
  keys_return (row ∷ rows) ((secret, e), rest) = (
    (record { name = row.name; algorithm = row.algorithm; secret_b64 = secret }, rw e refl),
    keys_return rows rest,
  )

  load_config_from_db_returns :
      (tables : Tables T)
      → IsSound tables
      → AreReadable tables
      → (config : BootstrapConfig J) × (load_config_from_db kek json tables ≡ some config)
  unfolding load_config_from_db
  load_config_from_db_returns tables s r =
      let (keys, k) =
        traverse-Returns (spec_of kek json) tables.tsig_keys
          (keys_return tables.tsig_keys r.tsig_secrets) in
      let (backends, b) =
        traverse-Returns (backend_config_of kek json) tables.backends
          (backends_return tables.backends r.configs) in
      let (zones, z) =
        traverse-Returns (zone_config_of kek json (backend_by_id kek json tables.backends))
          tables.domains (zones_return tables tables.domains s.served r.dynamic_keys) in
      (record { tsig_keys = keys; zones = zones; backends = backends }, rw (k, b, z) refl)

  -- After any sequence of requests from sound tables, refused ones included, the configuration of the
  -- data plane loads from the tables if all their encrypted columns can be decrypted: no domain fails
  -- for want of its backend.
  pub respond_all_loads :
      {S : Type 0} (schemas : Schemas J) (load : Tables T → Option S) (requests : List (Request J))
      (state : Tables T × Option (Option S))
      → IsSound state.0
      → AreReadable (respond_all load kek json schemas requests state).0
      → (config : BootstrapConfig J) × (load_config_from_db kek json
            (respond_all load kek json schemas requests state).0
          ≡ some config)
  respond_all_loads schemas load requests state s r =
      load_config_from_db_returns (respond_all load kek json schemas requests state).0
        (respond_all-IsSound kek json schemas load requests state s) r
