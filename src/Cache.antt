-- ===== src/Cache.antt =====
-- cache.py: the loading of the configuration from the database, and `RoutingCache`, whose snapshot the
-- data plane reads. The tables are an argument of the load; Cache/Refresh says when each is read.
pub mod Loading
pub mod Refresh
use mathlib.Core.Option
use astropath_dns_relay.Prelude.{
  ℕ, Bool, true, false, Option, none, some, List, [], ◌∷◌, map, Text, foldl, nat_eq, text_eq, ◌==◌,
  if◌then◌else◌,
}
use astropath_dns_relay.Prelude.Dict.{Dict, lookup, insert, values}
use astropath_dns_relay.Prelude.Optional.{◌>>=◌, traverse}
use astropath_dns_relay.Dns.{DnsName, name_eq}
use astropath_dns_relay.Models.{Backend, Domain, TsigKey, Tables}
use astropath_dns_relay.Store.{Kek, Json, decrypt_text, decrypt_json}
use astropath_dns_relay.DataPlane.Routing.{Route, match, routing_table}
use astropath_dns_relay.DataPlane.Tsig.{TsigKeySpec}
use astropath_dns_relay.Assembly.{
  ZoneConfig, BackendConfig, BootstrapConfig, Toolkit, DataPlaneRuntime, Instance, build_data_plane,
}

module _ {T J : Type 0} (kek : Kek T) (json : Json J) where
  -- The three comprehensions of `load_config_from_db`; none where one raises.
  unfoldable pub spec_of : TsigKey T → Option TsigKeySpec
  unfolding decrypt_text
  spec_of row = do
    secret ← decrypt_text kek row.secret_encrypted
    some (record { name = row.name; algorithm = row.algorithm; secret_b64 = secret })

  unfoldable pub backend_config_of : Backend T → Option (BackendConfig J)
  unfolding decrypt_json
  backend_config_of row = do
    config ← decrypt_json kek json row.config_encrypted
    some (record { name = row.name; provider = row.type; config = config })

  abbrev pub add_row : Dict ℕ (Backend T) → Backend T → Dict ℕ (Backend T)
  add_row rows row = insert row.id row rows

  unfoldable pub backend_by_id : List (Backend T) → Dict ℕ (Backend T)
  unfolding insert
  backend_by_id rows = foldl add_row [] rows

  unfoldable pub key_of_row : Option T → Option (Option Text)
  unfolding decrypt_text
  key_of_row none = some none
  key_of_row (some secret) = do key ← decrypt_text kek secret; some (some key)

  unfoldable pub zone_config_of : Dict ℕ (Backend T) → Domain T → Option ZoneConfig
  unfolding lookup key_of_row
  zone_config_of by_id row = do
    backend ← lookup row.backend_id by_id
    key ← key_of_row row.secret_encrypted
    some (record {
      zone = row.zone;
      provider = backend.type;
      record_name = row.record_name;
      he_dynamic_key = key;
      backend = some backend.name;
    })

  unfoldable pub load_config_from_db : Tables T → Option (BootstrapConfig J)
  unfolding traverse spec_of backend_config_of zone_config_of backend_by_id
  load_config_from_db tables = do
    tsig_keys ← traverse spec_of tables.tsig_keys
    backends ← traverse backend_config_of tables.backends
    zones ← traverse (zone_config_of (backend_by_id tables.backends)) tables.domains
    some (record { tsig_keys = tsig_keys; zones = zones; backends = backends })

module _ {N T : Type 0} ⦃d : DnsName N⦄ where
  unfoldable pub add_tsig_ids : Dict N ℕ → List (TsigKey T) → Option (Dict N ℕ)
  unfolding insert
  add_tsig_ids ids [] = some ids
  add_tsig_ids ids (row ∷ rows) = do
    name ← d.from_text row.name
    add_tsig_ids (insert (d.canonicalize name) row.id ids) rows

  unfoldable pub load_tsig_key_ids : List (TsigKey T) → Option (Dict N ℕ)
  unfolding add_tsig_ids
  load_tsig_key_ids rows = add_tsig_ids [] rows

pub record CacheSnapshot (N K : Type 0) : Type 0 where
  pub runtime : DataPlaneRuntime N K
  pub tsig_key_ids : Dict N ℕ

-- `make_db_loader`: what `_load` makes of the tables that it reads; none where it raises.
unfoldable pub load :
    {N K T J : Type 0} ⦃d : DnsName N⦄
    → Kek T
    → Json J
    → Toolkit N K J
    → Tables T
    → Option (CacheSnapshot N K)
unfolding load_config_from_db load_tsig_key_ids build_data_plane
load kek json kit tables = do
  config ← load_config_from_db kek json tables
  tsig_ids ← load_tsig_key_ids tables.tsig_keys
  runtime ← build_data_plane kit config
  some (record { runtime = runtime; tsig_key_ids = tsig_ids })

-- `RoutingCache`: the live snapshot
abbrev pub RoutingCache : Type 0 → Type 0 → Type 0
RoutingCache N K = Option (CacheSnapshot N K)

-- `refresh`, for a load that returned or raised: true for a return
unfoldable pub refresh : {S : Type 0} → Option S → Option S → Bool × Option S
refresh none cache = (false, cache)
refresh (some snapshot) cache = (true, some snapshot)

module _ {N K : Type 0} where
  unfoldable pub is_populated : RoutingCache N K → Bool
  is_populated none = false
  is_populated (some snapshot) = true

  unfoldable pub keyring : RoutingCache N K → Dict N K
  keyring none = []
  keyring (some snapshot) = snapshot.runtime.keyring

  unfoldable pub providers : RoutingCache N K → List Instance
  providers none = []
  providers (some snapshot) = values snapshot.runtime.providers

  module _ ⦃d : DnsName N⦄ where
    unfoldable pub tsig_key_id_for : RoutingCache N K → N → Option ℕ
    unfolding lookup
    tsig_key_id_for none name = none
    tsig_key_id_for (some snapshot) name = lookup (d.canonicalize name) snapshot.tsig_key_ids

    -- `RoutingCache.match`, with the routes of the snapshot made live
    unfoldable pub match_cached :
        {W : Type 0}
        → (DataPlaneRuntime N K → List (Route N W))
        → RoutingCache N K
        → N
        → Option (Route N W)
    unfolding match routing_table
    match_cached live none zone = none
    match_cached live (some snapshot) zone = match (routing_table (live snapshot.runtime)) zone
