-- ===== src/Assembly.antt =====
-- assembly.py: `build_data_plane`, from the decrypted configuration to the keyring, the routes and the
-- provider instances. The routes of one backend share its instance, and a per-record key is put into
-- it in place; so the model keeps the instances in the dict `providers`, a route names its instance by
-- the key of that dict, and the shared state is read from the dict when all zones are done.
pub mod Routes
pub mod Runtime
use mathlib.Core.Option
use astropath_dns_relay.Prelude.{
  ℕ, Bool, true, false, Option, none, some, List, [], ◌∷◌, ◌++◌, map, Text, codes, foldl, text_eq,
  ◌==◌, if◌then◌else◌,
}
use astropath_dns_relay.Prelude.Dict.{Dict, lookup, insert, values}
use astropath_dns_relay.Prelude.Optional.{◌>>=◌}
use astropath_dns_relay.Dns.{DnsName, name_eq}
use astropath_dns_relay.Providers.Base.{Provider}
use astropath_dns_relay.Providers.Http.{Posted, RetryPolicy}
use astropath_dns_relay.Providers.Hurricane.{
  Hurricane, Form, hurricane_init, register_record_key, hurricane_provider,
}
use astropath_dns_relay.Providers.Route53.{Route53, Client, route53_init, route53_provider}
use astropath_dns_relay.DataPlane.Routing.{Route, RoutingTable, routing_table}
use astropath_dns_relay.DataPlane.Tsig.{Algorithm, TsigKeySpec, build_keyring}

pub record ZoneConfig : Type 0 where
  pub zone : Text
  pub provider : Text
  pub record_name : Text
  pub he_dynamic_key : Option Text
  pub backend : Option Text

-- `J` is the decrypted JSON of a provider's shared configuration.
pub record BackendConfig (J : Type 0) : Type 0 where
  pub name : Text
  pub provider : Text
  pub config : J

-- The listener's address is not part of the assembly.
pub record BootstrapConfig (J : Type 0) : Type 0 where
  pub tsig_keys : List TsigKeySpec
  pub zones : List ZoneConfig
  pub backends : List (BackendConfig J)

-- An instance of a registered provider class.
pub data Instance : Type 0 where
  hurricane : Hurricane → Instance
  route53 : Route53 → Instance

-- What the assembly calls outside this code: dnspython's keys, the empty configuration `{}`, and
-- pydantic's validation of a configuration, none where it raises.
pub record Toolkit (N K J : Type 0) : Type 0 where
  pub tsig_key : N → Text → Algorithm → Option K
  pub empty_config : J
  -- the placeholder of `HurricaneConfig`; the hosted zone and the polling of `Route53Config`
  pub hurricane_config : J → Option Text
  pub route53_config : J → Option (Text × Bool)

-- The built-in providers of `REGISTRY`, and their `from_config`; none for `UnknownProvider` too.
unfoldable pub make_instance : {N K J : Type 0} → Toolkit N K J → Text → J → Option Instance
make_instance kit provider_type config =
    if provider_type == codes "hurricane"
    then (do
      placeholder ← kit.hurricane_config config
      some (hurricane (hurricane_init [] placeholder)))
    else if provider_type == codes "route53"
    then (do
      (zone_id, await_insync) ← kit.route53_config config
      some (route53 (route53_init zone_id await_insync)))
    else none

-- `zone_config.backend or zone_config.provider`
unfoldable pub instance_key : ZoneConfig → Text
instance_key z = elim z.backend [
  | none ↦ z.provider
  | some [] ↦ z.provider
  | some (c ∷ name) ↦ c ∷ name
]

-- A route before its provider is looked up.
pub record Pending (N : Type 0) : Type 0 where
  pub zone : N
  pub key : Text
  pub record_name : N

-- `DataPlaneRuntime`, with the routes of its table in the order of the zones
pub record DataPlaneRuntime (N K : Type 0) : Type 0 where
  pub keyring : Dict N K
  pub routes : List (Pending N)
  pub providers : Dict Text Instance

pub record Assembly (N : Type 0) : Type 0 where
  pub providers : Dict Text Instance
  pub routes : List (Pending N)

-- `register_record_key`, for a Hurricane Electric instance and a key that is not empty
unfoldable pub with_key : ZoneConfig → Instance → Instance
with_key z (route53 r) = route53 r
with_key z (hurricane h) = elim z.he_dynamic_key [
  | none ↦ hurricane h
  | some [] ↦ hurricane h
  | some (c ∷ key) ↦ hurricane (register_record_key z.record_name (c ∷ key) h)
]

module _ {N : Type 0} ⦃d : DnsName N⦄ where
  unfoldable pub pending_of : ZoneConfig → Option (Pending N)
  unfolding instance_key
  pending_of z = do
    zone ← d.from_text z.zone
    record_name ← d.from_text z.record_name
    some (record {
      zone = d.canonicalize zone;
      key = instance_key z;
      record_name = d.canonicalize record_name;
    })

module _ {J : Type 0} where
  abbrev pub add_backend :
      Dict Text (BackendConfig J) → BackendConfig J → Dict Text (BackendConfig J)
  add_backend backends backend = insert backend.name backend backends

  -- `backends_by_name`
  unfoldable pub backends_by_name : List (BackendConfig J) → Dict Text (BackendConfig J)
  unfolding insert
  backends_by_name backends = foldl add_backend [] backends

  -- The backend of a zone, none if it names none or an unknown one.
  unfoldable pub backend_of : Dict Text (BackendConfig J) → ZoneConfig → Option (BackendConfig J)
  unfolding lookup
  backend_of backends z = do name ← z.backend; lookup name backends

module _ {N K J : Type 0} ⦃d : DnsName N⦄ (kit : Toolkit N K J) where
  -- The type and the configuration of a new instance.
  unfoldable pub new_instance : ZoneConfig → Option (BackendConfig J) → Option Instance
  unfolding make_instance
  new_instance z none = make_instance kit z.provider kit.empty_config
  new_instance z (some backend) = make_instance kit backend.provider backend.config

  unfoldable pub instance_of :
      Dict Text (BackendConfig J) → Dict Text Instance → ZoneConfig → Option Instance
  unfolding new_instance backend_of lookup instance_key
  instance_of backends providers z = elim (lookup (instance_key z) providers) [
    | some provider ↦ some provider
    | none ↦ new_instance z (backend_of backends z)
  ]

  -- One round of the loop; none where it raises.
  unfoldable pub add_zone :
      Dict Text (BackendConfig J) → Assembly N → ZoneConfig → Option (Assembly N)
  unfolding instance_of with_key pending_of insert
  add_zone backends a z = do
    provider ← instance_of backends a.providers z
    route ← pending_of z
    some (record {
      providers = insert (instance_key z) (with_key z provider) a.providers;
      routes = a.routes ++ route ∷ [];
    })

  unfoldable pub add_zones :
      Dict Text (BackendConfig J) → Assembly N → List ZoneConfig → Option (Assembly N)
  unfolding add_zone
  add_zones backends a [] = some a
  add_zones backends a (z ∷ zones) = do a' ← add_zone backends a z; add_zones backends a' zones

  unfoldable pub build_data_plane : BootstrapConfig J → Option (DataPlaneRuntime N K)
  unfolding add_zones backends_by_name
  build_data_plane config = do
    keyring ← build_keyring kit.tsig_key config.tsig_keys
    a ←
        add_zones (backends_by_name config.backends) (record { providers = []; routes = [] })
          config.zones
    some (record { keyring = keyring; routes = a.routes; providers = a.providers })

-- The routes as the dispatcher uses them: each with the provider that its instance is, over the HTTP
-- client and the client of a hosted zone, which are the libraries'.
module _ {W : Type 0} (post : Form → W → Posted × W) (policy : RetryPolicy)
    (client : Text → Client W) where
  abbrev pub provider_of : Instance → Provider W
  provider_of (hurricane h) = hurricane_provider post policy h
  provider_of (route53 r) = route53_provider r (client r.hosted_zone_id)

  abbrev pub live_route : {N : Type 0} → Pending N → Instance → Route N W
  live_route p i = record { zone = p.zone; provider = provider_of i; record_name = p.record_name }

  unfoldable pub live_routes :
      {N : Type 0} → Dict Text Instance → List (Pending N) → Option (List (Route N W))
  unfolding lookup
  live_routes providers [] = some []
  live_routes providers (p ∷ routes) = do
    i ← lookup p.key providers
    rest ← live_routes providers routes
    some (live_route p i ∷ rest)
