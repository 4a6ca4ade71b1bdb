-- ===== src/Assembly/Routes.antt =====
-- What the assembly makes of the zones: their routes in order, each with an instance, and the shared
-- instances with the per-record keys of all their zones.
use mathlib.Core.List.{append-nil, append_assoc}
use astropath_dns_relay.Prelude.{
  ◌≡◌, refl, sym, ap, ◌∙◌, subst, inl, inr, Option, none, some, List, [], ◌∷◌, ◌++◌, Text, text_eq,
  text_beq_iff, ◌==◌, if◌then◌else◌, arith, Bool-cases, Option-cases,
}
use astropath_dns_relay.Prelude.Dict.{Dict, lookup, insert, lookup-insert}
use astropath_dns_relay.Prelude.Optional.{bind-eq-some}
use astropath_dns_relay.Dns.{DnsName, name_eq}
use astropath_dns_relay.Providers.Hurricane.{Hurricane, hurricane_init, normalize_record, key_for}
use astropath_dns_relay.Providers.Hurricane.Records.{key_for-register_record_key}
use astropath_dns_relay.Providers.Route53.{Route53}
use astropath_dns_relay.Assembly.{
  ZoneConfig, BackendConfig, Instance, hurricane, route53, Toolkit, make_instance, instance_key,
  Pending, Assembly, backend_of, instance_of, new_instance, with_key, pending_of, add_zone,
  add_zones,
}

module _ {N K J : Type 0} ⦃d : DnsName N⦄ (kit : Toolkit N K J)
    (backends : Dict Text (BackendConfig J)) where
  -- One round of the loop that succeeded.
  pub record Added (a : Assembly N) (z : ZoneConfig) (a' : Assembly N) : Type 0 where
    pub provider : Instance
    pub route : Pending N
    pub chosen : instance_of kit backends a.providers z ≡ some provider
    pub pending : pending_of z ≡ some route
    pub providers : a'.providers ≡ insert (instance_key z) (with_key z provider) a.providers
    pub routes : a'.routes ≡ a.routes ++ route ∷ []

  pub add_zone-Added :
      (a a' : Assembly N) (z : ZoneConfig) → add_zone kit backends a z ≡ some a' → Added a z a'
  unfolding add_zone
  add_zone-Added a a' z h = elim (Option-cases (instance_of kit backends a.providers z)) [
    | inl e ↦ absurd (ground arith)
    | inr (provider, e) ↦ elim (Option-cases (pending_of {N = N} z)) [
      | inl r ↦ absurd (ground arith)
      | inr (route, r) ↦ record {
        provider = provider;
        route = route;
        chosen = e;
        pending = r;
        providers = ground arith;
        routes = ground arith;
      }
    ]
  ]

  -- The zones, each with its route.
  abbrev pub Pended : List ZoneConfig → List (Pending N) → Type 0
  Pended [] [] = Unit
  Pended [] (_ ∷ _) = ⊥
  Pended (_ ∷ _) [] = ⊥
  Pended (z ∷ zones) (route ∷ routes) = (pending_of z ≡ some route) × Pended zones routes

  pub add_zones_routes :
      (a a' : Assembly N) (zones : List ZoneConfig)
      → add_zones kit backends a zones ≡ some a'
      → (routes : List (Pending N)) × (a'.routes ≡ a.routes ++ routes) × Pended zones routes
  unfolding add_zones
  add_zones_routes a a' [] h = ([], (ground arith) ∙ sym (append-nil a.routes), tt)
  add_zones_routes a a' (z ∷ zones) h =
      let (a1, first, rest) =
        bind-eq-some (add_zone kit backends a z) (λ b. add_zones kit backends b zones) h in
      let s = add_zone-Added a a1 z first in
      let (routes, e, p) = add_zones_routes a1 a' zones rest in
      (
        s.route ∷ routes,
        e
            ∙ ap (λ (r : List (Pending N)). r ++ routes) s.routes
            ∙ append_assoc a.routes (s.route ∷ []) routes,
        (s.pending, p),
      )

  -- The per-record key of an instance.
  abbrev pub keys_of : Instance → Text → Option Text
  keys_of (hurricane h) n = key_for h n
  keys_of (route53 r) n = none

  abbrev pub key_at : Text → Text → Dict Text Instance → Option Text
  key_at k n providers = elim (lookup k providers) [ none ↦ none | some i ↦ keys_of i n ]

  -- The key for a record that the last zone of an instance gives, and else a given one.
  abbrev pub given : Text → Text → Option Text → Option Text → Option Text
  given record_name n none found = found
  given record_name n (some []) found = found
  given record_name n (some (c ∷ key)) found =
      if normalize_record record_name == normalize_record n then some (c ∷ key) else found

  abbrev pub newer : Text → Text → ZoneConfig → Option Text → Option Text
  newer k n z found =
      if instance_key z == k then given z.record_name n z.he_dynamic_key found else found

  unfoldable pub newest : Text → Text → List ZoneConfig → Option Text → Option Text
  newest k n [] found = found
  newest k n (z ∷ zones) found = newest k n zones (newer k n z found)

  keys_of-with_key :
      (z : ZoneConfig) (h : Hurricane) (n : Text)
      → keys_of (with_key z (hurricane h)) n ≡ given z.record_name n z.he_dynamic_key (key_for h n)
  unfolding with_key
  keys_of-with_key z h n = by_key z.he_dynamic_key refl
    where
      by_key :
          (key : Option Text)
          → z.he_dynamic_key ≡ key
          → keys_of (with_key z (hurricane h)) n ≡ given z.record_name n key (key_for h n)
      by_key none e = rw e refl
      by_key (some []) e = rw e refl
      by_key (some (c ∷ key)) e = rw e (key_for-register_record_key z.record_name n (c ∷ key) h).0

  -- A new instance has no keys.
  new_instance_keys :
      (z : ZoneConfig) (backend : Option (BackendConfig J)) (h : Hurricane) (n : Text)
      → new_instance kit z backend ≡ some (hurricane h)
      → key_for h n ≡ none
  unfolding new_instance make_instance key_for lookup hurricane_init
  new_instance_keys z none h n e = ground arith
  new_instance_keys z (some backend) h n e = ground arith

  instance_of_keys :
      (providers : Dict Text Instance) (z : ZoneConfig) (h : Hurricane) (n : Text)
      → instance_of kit backends providers z ≡ some (hurricane h)
      → key_for h n ≡ key_at (instance_key z) n providers
  unfolding instance_of
  instance_of_keys providers z h n e = elim (Option-cases (lookup (instance_key z) providers)) [
    | inl absent ↦
        new_instance_keys z (backend_of backends z) h n (ground arith) ∙ ground (arith, absent)
    | inr (i, there) ↦ ground (arith, there)
  ]

  pub Added-lookup :
      (a a' : Assembly N) (z : ZoneConfig) (k : Text)
      → (s : Added a z a')
      → lookup k a'.providers
        ≡ (if instance_key z == k then some (with_key z s.provider) else lookup k a.providers)
  Added-lookup a a' z k s =
      ap (lookup k) s.providers
      ∙ lookup-insert (instance_key z) k (with_key z s.provider) a.providers

  unfoldable pub IsRoute53 : Text → Dict Text Instance → Type 0
  IsRoute53 k providers = (r : Route53) × (lookup k providers ≡ some (route53 r))

  -- An instance keeps its class.
  Added-IsRoute53 :
      (a a' : Assembly N) (z : ZoneConfig) (k : Text)
      → Added a z a'
      → IsRoute53 k a.providers
      → IsRoute53 k a'.providers
  unfolding IsRoute53 instance_of with_key
  Added-IsRoute53 a a' z k s (r, e) =
      (r, Added-lookup a a' z k s ∙ ground (arith, s.chosen, text_beq_iff (instance_key z) k))

  add_zones-IsRoute53 :
      (a a' : Assembly N) (zones : List ZoneConfig) (k : Text)
      → add_zones kit backends a zones ≡ some a'
      → IsRoute53 k a.providers
      → IsRoute53 k a'.providers
  unfolding add_zones
  add_zones-IsRoute53 a a' [] k h i =
      let same : a ≡ a' = ground arith in subst (λ (b : Assembly N). IsRoute53 k b.providers) same i
  add_zones-IsRoute53 a a' (z ∷ zones) k h i =
      let (a1, first, rest) =
        bind-eq-some (add_zone kit backends a z) (λ b. add_zones kit backends b zones) h in
      add_zones-IsRoute53 a1 a' zones k rest
        (Added-IsRoute53 a a1 z k (add_zone-Added a a1 z first) i)

  Added-key_at_hurricane :
      (a a' : Assembly N) (z : ZoneConfig) (n : Text) (s : Added a z a') (h : Hurricane)
      → s.provider ≡ hurricane h
      → keys_of (with_key z s.provider) n
        ≡ given z.record_name n z.he_dynamic_key (key_at (instance_key z) n a.providers)
  Added-key_at_hurricane a a' z n s h e =
      ap (λ (i : Instance). keys_of (with_key z i) n) e
      ∙ keys_of-with_key z h n
      ∙ ap (given z.record_name n z.he_dynamic_key)
          (instance_of_keys a.providers z h n (s.chosen ∙ ap (λ (i : Instance). some i) e))

  Added-key_at_same :
      (a a' : Assembly N) (z : ZoneConfig) (n : Text) (s : Added a z a') (p : Instance)
      → s.provider ≡ p
      → lookup (instance_key z) a'.providers ≡ some (with_key z s.provider)
      → ¬ IsRoute53 (instance_key z) a'.providers
      → keys_of (with_key z s.provider) n
        ≡ given z.record_name n z.he_dynamic_key (key_at (instance_key z) n a.providers)
  unfolding IsRoute53 with_key
  Added-key_at_same a a' z n s (hurricane h) e found other = Added-key_at_hurricane a a' z n s h e
  Added-key_at_same a a' z n s (route53 r) e found other =
      absurd (other (r, found ∙ ap (λ (i : Instance). some (with_key z i)) e))

  Added-key_at :
      (a a' : Assembly N) (z : ZoneConfig) (k n : Text)
      → Added a z a'
      → ¬ IsRoute53 k a'.providers
      → key_at k n a'.providers ≡ newer k n z (key_at k n a.providers)
  Added-key_at a a' z k n s other = elim (Bool-cases (instance_key z == k)) [
    | inr else_ ↦ ground (arith, Added-lookup a a' z k s)
    | inl same ↦
        let key : instance_key z ≡ k = (text_beq_iff (instance_key z) k).0 same in
        let found : lookup k a'.providers ≡ some (with_key z s.provider) =
          ground (arith, Added-lookup a a' z k s) in
        let step =
          Added-key_at_same a a' z n s s.provider refl
            (subst (λ j. lookup j a'.providers ≡ some (with_key z s.provider)) (sym key) found)
            (subst (λ j. ¬ IsRoute53 j a'.providers) (sym key) other) in
        ground (arith, found, step, key)
  ]

  pub add_zones-key_at :
      (a a' : Assembly N) (zones : List ZoneConfig) (k n : Text)
      → add_zones kit backends a zones ≡ some a'
      → ¬ IsRoute53 k a'.providers
      → key_at k n a'.providers ≡ newest k n zones (key_at k n a.providers)
  unfolding add_zones newest
  add_zones-key_at a a' [] k n h other = ap (λ (b : Assembly N). key_at k n b.providers) same
    where
      same : a' ≡ a
      same = ground arith
  add_zones-key_at a a' (z ∷ zones) k n h other =
      let (a1, first, rest) =
        bind-eq-some (add_zone kit backends a z) (λ b. add_zones kit backends b zones) h in
      let before : ¬ IsRoute53 k a1.providers =
        λ i. other (add_zones-IsRoute53 a1 a' zones k rest i) in
      add_zones-key_at a1 a' zones k n rest other
      ∙ ap (newest k n zones) (Added-key_at a a1 z k n (add_zone-Added a a1 z first) before)
