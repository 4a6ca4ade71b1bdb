-- ===== src/Cache/Loading.antt =====
-- What the loader reads from rows that the builders of store.py wrote.
use astropath_dns_relay.Prelude.{
  ℕ, ◌≡◌, ◌≢◌, refl, inl, inr, Option, none, some, List, [], ◌∷◌, map, Text, All, nat_eq, arith,
  Option-cases,
}
use astropath_dns_relay.Prelude.Dict.{Dict, lookup}
use astropath_dns_relay.Prelude.Optional.{traverse, traverse-traverse}
use astropath_dns_relay.Models.{Backend, Domain, TsigKey}
use astropath_dns_relay.Store.{
  Kek, Json, encrypt_text, decrypt_text, encrypt_json, decrypt_json, encrypt_key, build_backend,
  build_domain, build_tsig_key,
}
use astropath_dns_relay.DataPlane.Tsig.{TsigKeySpec}
use astropath_dns_relay.Assembly.{ZoneConfig, BackendConfig}
use astropath_dns_relay.Cache.{
  spec_of, backend_config_of, backend_by_id, key_of_row, zone_config_of, load_config_from_db,
}

-- What a write has besides its contents: the noise of the encryption, the row's id and its time.
pub record Write : Type 0 where
  pub noise : ℕ
  pub id : ℕ
  pub now : ℕ

-- A mapping of a zone, as it is given.
pub record Mapping : Type 0 where
  pub zone : Text
  pub backend_id : ℕ
  pub record_name : Text
  pub key : Option Text

module _ {T J : Type 0} (kek : Kek T) (json : Json J) where
  -- The rows that are written.
  abbrev pub write_tsig : Write × TsigKeySpec → TsigKey T
  write_tsig (w, spec) =
      build_tsig_key kek w.noise w.id w.now spec.name spec.algorithm spec.secret_b64

  abbrev pub write_backend : Write × BackendConfig J → Option (Backend T)
  write_backend (w, b) = build_backend kek json w.noise w.id w.now b.name b.provider b.config

  abbrev pub write_domain : Write × Mapping → Domain T
  write_domain (w, m) = build_domain kek w.noise w.id w.now m.zone m.backend_id m.record_name m.key

  -- A key that is given and not empty.
  abbrev pub kept_key : Option Text → Option Text
  kept_key none = none
  kept_key (some []) = none
  kept_key (some (c ∷ key)) = some (c ∷ key)

  -- The configuration of a zone that was written as a mapping, with its backend's row.
  abbrev pub zone_for : Mapping → Backend T → ZoneConfig
  zone_for m row = record {
    zone = m.zone;
    provider = row.type;
    record_name = m.record_name;
    he_dynamic_key = kept_key m.key;
    backend = some row.name;
  }

  -- The zones of mappings, each with the row that its backend id names.
  abbrev pub AreZones : Dict ℕ (Backend T) → List (Write × Mapping) → List ZoneConfig → Type 0
  AreZones by_id [] [] = Unit
  AreZones by_id [] (_ ∷ _) = ⊥
  AreZones by_id (_ ∷ _) [] = ⊥
  AreZones by_id (x ∷ xs) (z ∷ zones) =
      ((row : Backend T) × (lookup x.1.backend_id by_id ≡ some row) × (z ≡ zone_for x.1 row))
      × AreZones by_id xs zones

  module _ (decrypts : (noise : ℕ) (text : Text) → kek.decrypt (kek.encrypt noise text) ≡ some text)
      (loads : (j : J) (payload : Text)
        → json.dumps j ≡ some payload
        → json.loads payload ≡ some j) where
    spec_of-write_tsig : (x : Write × TsigKeySpec) → spec_of kek json (write_tsig x) ≡ some x.1
    unfolding spec_of build_tsig_key encrypt_text decrypt_text
    spec_of-write_tsig (w, spec) = rw (decrypts w.noise spec.secret_b64) refl

    backend_config_of-write :
        (x : Write × BackendConfig J) (row : Backend T)
        → write_backend x ≡ some row
        → backend_config_of kek json row ≡ some x.1
    unfolding backend_config_of build_backend encrypt_json decrypt_json
    backend_config_of-write (w, b) row e = elim (Option-cases (json.dumps b.config)) [
      | inl fails ↦ absurd (ground arith)
      | inr (payload, dumped) ↦
          ground (arith, decrypts w.noise payload, loads b.config payload dumped)
    ]

    key_of_row-encrypt_key :
        (noise : ℕ) (key : Option Text)
        → key_of_row kek json (encrypt_key kek noise key) ≡ some (kept_key key)
    unfolding key_of_row encrypt_key encrypt_text decrypt_text
    key_of_row-encrypt_key noise none = refl
    key_of_row-encrypt_key noise (some []) = refl
    key_of_row-encrypt_key noise (some (c ∷ key)) = rw (decrypts noise (c ∷ key)) refl

    zone_config_of-write :
        (by_id : Dict ℕ (Backend T)) (x : Write × Mapping) (row : Backend T)
        → lookup x.1.backend_id by_id ≡ some row
        → zone_config_of kek json by_id (write_domain x) ≡ some (zone_for x.1 row)
    unfolding zone_config_of build_domain
    zone_config_of-write by_id (w, m) row e = rw (e, key_of_row-encrypt_key w.noise m.key) refl

    tsig_lem :
        (xs : List (Write × TsigKeySpec))
        → traverse (spec_of kek json) (map write_tsig xs)
          ≡ some (map (λ (x : Write × TsigKeySpec). x.1) xs)
    unfolding traverse
    tsig_lem [] = refl
    tsig_lem (x ∷ xs) = rw (spec_of-write_tsig x, tsig_lem xs) refl

    zones_lem :
        (by_id : Dict ℕ (Backend T)) (xs : List (Write × Mapping))
        → All (λ (x : Write × Mapping). lookup x.1.backend_id by_id ≢ none) xs
        → (zones : List ZoneConfig) × (traverse
              (zone_config_of kek json by_id)
              (map write_domain xs)
            ≡ some zones)
          × AreZones by_id xs zones
    unfolding traverse
    zones_lem by_id [] h = ([], refl, tt)
    zones_lem by_id (x ∷ xs) h = elim (Option-cases (lookup x.1.backend_id by_id)) [
      | inl absent ↦ absurd (h.0 absent)
      | inr (row, e) ↦
          let (zones, rest, are) = zones_lem by_id xs h.1 in
          (
            zone_for x.1 row ∷ zones,
            rw (zone_config_of-write by_id x row e, rest) refl,
            ((row, e, refl), are),
          )
    ]

    -- Rows that were written from TSIG keys, backend configurations and mappings of zones to
    -- existing backends are loaded as exactly these, in order: the secrets are decrypted, an empty
    -- dynamic key is none, and a zone has the name and the type of its backend. The KEK must decrypt
    -- what it encrypted, and JSON must read what it wrote.
    pub load_config_from_db-write :
        (keys : List (Write × TsigKeySpec)) (configs : List (Write × BackendConfig J))
        (mappings : List (Write × Mapping)) (rows : List (Backend T))
        → traverse write_backend configs ≡ some rows
        → All
            (λ (x : Write × Mapping). lookup x.1.backend_id (backend_by_id kek json rows) ≢ none)
            mappings
        → (zones : List ZoneConfig) × (load_config_from_db kek json (record {
          backends = rows;
          domains = map write_domain mappings;
          tsig_keys = map write_tsig keys;
        })
            ≡ some (record {
              tsig_keys = map (λ (x : Write × TsigKeySpec). x.1) keys;
              zones = zones;
              backends = map (λ (x : Write × BackendConfig J). x.1) configs;
            }))
          × AreZones (backend_by_id kek json rows) mappings zones
    unfolding load_config_from_db
    load_config_from_db-write keys configs mappings rows made known =
        let read =
          traverse-traverse write_backend (backend_config_of kek json)
            (λ (x : Write × BackendConfig J). x.1) configs rows backend_config_of-write made in
        let (zones, found, are) = zones_lem (backend_by_id kek json rows) mappings known in
        (zones, rw (tsig_lem keys, read, found) refl, are)
