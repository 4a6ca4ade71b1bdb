-- ===== src/Assembly/Runtime.antt =====
-- The assembled data plane: every zone has its route, and every route its provider.
use mathlib.Core.Option.{some-injective}
use astropath_dns_relay.Prelude.{
  ◌≡◌, ◌≢◌, sym, ap, ◌∙◌, subst, Option, none, some, List, [], ◌∷◌, Text, All, All-append, text_eq,
  text_beq_iff, arith,
}
use astropath_dns_relay.Prelude.Dict.{Dict, lookup}
use astropath_dns_relay.Prelude.Optional.{bind-eq-some}
use astropath_dns_relay.Dns.{DnsName, name_eq}
use astropath_dns_relay.Providers.Hurricane.{Hurricane, key_for}
use astropath_dns_relay.DataPlane.Tsig.{build_keyring}
use astropath_dns_relay.Assembly.{
  ZoneConfig, BackendConfig, BootstrapConfig, Instance, hurricane, Toolkit, instance_key, Pending,
  Assembly, pending_of, add_zone, add_zones, backends_by_name, DataPlaneRuntime, build_data_plane,
}
use astropath_dns_relay.Assembly.Routes.{
  Added, add_zone-Added, Added-lookup, Pended, add_zones_routes, IsRoute53, keys_of, newest,
  add_zones-key_at,
}

module _ {N K J : Type 0} ⦃d : DnsName N⦄ (kit : Toolkit N K J) where
  -- Every route names an instance.
  abbrev pub HaveInstances : Dict Text Instance → List (Pending N) → Type 0
  HaveInstances providers = All (λ (p : Pending N). lookup p.key providers ≢ none)

  module _ (backends : Dict Text (BackendConfig J)) where
    Added-keeps :
        (a a' : Assembly N) (z : ZoneConfig) (k : Text)
        → Added kit backends a z a'
        → lookup k a.providers ≢ none
        → lookup k a'.providers ≢ none
    Added-keeps a a' z k s there = ground (arith, Added-lookup kit backends a a' z k s)

    Added-keeps_all :
        (a a' : Assembly N) (z : ZoneConfig) (routes : List (Pending N))
        → Added kit backends a z a'
        → HaveInstances a.providers routes
        → HaveInstances a'.providers routes
    Added-keeps_all a a' z [] s h = tt
    Added-keeps_all a a' z (p ∷ routes) s h =
        (Added-keeps a a' z p.key s h.0, Added-keeps_all a a' z routes s h.1)

    pending_of-key :
        (z : ZoneConfig) (p : Pending N) → pending_of z ≡ some p → p.key ≡ instance_key z
    unfolding pending_of
    pending_of-key z p e = ground arith

    Added-HaveInstances :
        (a a' : Assembly N) (z : ZoneConfig)
        → Added kit backends a z a'
        → HaveInstances a.providers a.routes
        → HaveInstances a'.providers a'.routes
    Added-HaveInstances a a' z s h =
        let key = pending_of-key z s.route s.pending in
        let new : lookup s.route.key a'.providers ≢ none = ground (
          arith,
          Added-lookup kit backends a a' z s.route.key s,
          text_beq_iff (instance_key z) s.route.key,
        ) in
        subst (HaveInstances a'.providers) (sym s.routes) (
          All-append (λ (p : Pending N). lookup p.key a'.providers ≢ none) a.routes (s.route ∷ [])
            (Added-keeps_all a a' z a.routes s h) (new, tt))

    add_zones-HaveInstances :
        (a a' : Assembly N) (zones : List ZoneConfig)
        → add_zones kit backends a zones ≡ some a'
        → HaveInstances a.providers a.routes
        → HaveInstances a'.providers a'.routes
    unfolding add_zones
    add_zones-HaveInstances a a' [] e h =
        let same : a ≡ a' = ground arith in
        subst (λ (b : Assembly N). HaveInstances b.providers b.routes) same h
    add_zones-HaveInstances a a' (z ∷ zones) e h =
        let (a1, first, rest) =
          bind-eq-some (add_zone kit backends a z) (λ b. add_zones kit backends b zones) e in
        add_zones-HaveInstances a1 a' zones rest
          (Added-HaveInstances a a1 z (add_zone-Added kit backends a a1 z first) h)

  -- What an assembled runtime is for a configuration.
  pub record IsRuntime (config : BootstrapConfig J) (r : DataPlaneRuntime N K) : Type 0 where
    pub keyring : build_keyring kit.tsig_key config.tsig_keys ≡ some r.keyring
    pub routed : Pended kit (backends_by_name config.backends) config.zones r.routes
    pub served : HaveInstances r.providers r.routes
    pub keyed :
        (k n : Text) (h : Hurricane)
        → lookup k r.providers ≡ some (hurricane h)
        → key_for h n ≡ newest kit (backends_by_name config.backends) k n config.zones none

  assembled-IsRuntime :
      (config : BootstrapConfig J) (keyring : Dict N K) (a : Assembly N)
      → build_keyring kit.tsig_key config.tsig_keys ≡ some keyring
      → add_zones kit
          (backends_by_name config.backends)
          (record { providers = []; routes = [] })
          config.zones
        ≡ some a
      → IsRuntime config (record { keyring = keyring; routes = a.routes; providers = a.providers })
  unfolding IsRoute53 lookup
  assembled-IsRuntime config keyring a keys zones =
      let backends = backends_by_name config.backends in
      let start : Assembly N = record { providers = []; routes = [] } in
      let (routes, same, pended) = add_zones_routes kit backends start a config.zones zones in
      record {
        keyring = keys;
        routed = subst (Pended kit backends config.zones) (sym same) pended;
        served = add_zones-HaveInstances backends start a config.zones zones tt;
        keyed = λ k n h found.
            let other : ¬ IsRoute53 kit backends k a.providers = λ (r, e). ground (arith, found) in
            ap (λ (o : Option Instance). elim o [ none ↦ none | some i ↦ keys_of kit backends i n ])
              (sym found)
            ∙ add_zones-key_at kit backends start a config.zones k n zones other;
      }

  -- A data plane that `build_data_plane` returns has the keyring of the TSIG keys; one route for each
  -- zone, in order; an instance for every route; and a Hurricane Electric instance has, for each
  -- record, the key of the last of its zones that gives one, also where zones share the instance.
  pub build_data_plane-IsRuntime :
      (config : BootstrapConfig J) (r : DataPlaneRuntime N K)
      → build_data_plane kit config ≡ some r
      → IsRuntime config r
  unfolding build_data_plane
  build_data_plane-IsRuntime config r e =
      let backends = backends_by_name config.backends in
      let start : Assembly N = record { providers = []; routes = [] } in
      let (keyring, keys, after) = bind-eq-some (build_keyring kit.tsig_key config.tsig_keys) _ e in
      let (a, zones, last) = bind-eq-some (add_zones kit backends start config.zones) _ after in
      subst (IsRuntime config) (some-injective _ r last)
        (assembled-IsRuntime config keyring a keys zones)
