-- ===== src/DataPlane/Dispatcher/Laws.antt =====
-- What a dispatch does: the write surface, the reply codes, the isolation of the audit write.
use astropath_dns_relay.Prelude.{
  false, ◌≡◌, refl, subst, ◌≤◌, ◌⊎◌, inl, inr, some, List, Text, String, arith, length,
  Option-cases,
}
use astropath_dns_relay.Dns.{DnsName}
use astropath_dns_relay.DataPlane.Message.{refused, Rrset, UpdateMessage}
use astropath_dns_relay.DataPlane.Routing.{Route}
use astropath_dns_relay.DataPlane.Surface.{
  Action, zone_from_message, validate_write_surface, normalize_txt_values,
}
use astropath_dns_relay.DataPlane.Surface.Laws.{
  IsAllowed, AreTokens, validate_write_surface_iff, normalize_txt_values_iff,
}
use astropath_dns_relay.DataPlane.Dispatcher.{
  Dispatcher, Readings, Gateway, replied, Challenge, invoke_provider, admit, admit_to, challenge_of,
  dispatch,
}

module _ {N W D : Type 0} ⦃d : DnsName N⦄ (cfg : Dispatcher N W D) (t : Readings) where
  -- What must hold of an UPDATE for a challenge to reach its provider.
  pub record IsAuthorized (msg : UpdateMessage N) (c : Challenge N W) : Type 0 where
    pub zone : N
    pub in_zone : zone_from_message msg ≡ some zone
    pub routed : cfg.routing zone ≡ some c.route
    pub rrset : Rrset N
    pub allowed : IsAllowed msg c.route c.action rrset
    pub named : c.record_name ≡ d.to_text rrset.name
    pub tokens : AreTokens rrset.rdatas c.values
    pub single : c.route.provider.supports_multivalue ≡ false → length c.values ≤ 1

  challenge_of-IsAuthorized :
      (msg : UpdateMessage N) (source : String) (zone : N) (route : Route N W) (action : Action)
      (rrset : Rrset N) (values : List Text)
      → zone_from_message msg ≡ some zone
      → cfg.routing zone ≡ some route
      → validate_write_surface msg route ≡ some (action, rrset)
      → normalize_txt_values rrset.rdatas action route.provider.supports_multivalue ≡ some values
      → IsAuthorized msg (challenge_of cfg t msg source route action rrset values)
  challenge_of-IsAuthorized msg source zone route action rrset values z r v n =
      let (tokens, few, _) = (normalize_txt_values_iff rrset.rdatas action _ values).0 n in
      record {
        zone = zone;
        in_zone = z;
        routed = r;
        rrset = rrset;
        allowed = (validate_write_surface_iff msg route action rrset).0 v;
        named = refl;
        tokens = tokens;
        single = few;
      }

  admit_to-IsAuthorized :
      (msg : UpdateMessage N) (source : String) (c : Challenge N W) (zone : N) (route : Route N W)
      → zone_from_message msg ≡ some zone
      → cfg.routing zone ≡ some route
      → admit_to cfg t msg source route ≡ some c
      → IsAuthorized msg c
  unfolding admit_to
  admit_to-IsAuthorized msg source c zone route z r h =
      elim (Option-cases (validate_write_surface msg route)) [
        | inl refused_ ↦ absurd (ground arith)
        | inr ((action, rrset), v) ↦
            elim (Option-cases
              (normalize_txt_values rrset.rdatas action route.provider.supports_multivalue)) [
                | inl refused_ ↦ absurd (ground arith)
                | inr (values, n) ↦
                    subst (IsAuthorized msg) (ground arith)
                      (challenge_of-IsAuthorized msg source zone route action rrset values z r v n)
              ]
      ]

  admit-IsAuthorized :
      (msg : UpdateMessage N) (source : String) (c : Challenge N W)
      → admit cfg t msg source ≡ some c
      → IsAuthorized msg c
  unfolding admit
  admit-IsAuthorized msg source c h = elim (Option-cases (zone_from_message msg)) [
    | inl refused_ ↦ absurd (ground arith)
    | inr (zone, z) ↦ elim (Option-cases (cfg.routing zone)) [
      | inl refused_ ↦ absurd (ground arith)
      | inr (route, r) ↦ admit_to-IsAuthorized msg source c zone route z r (ground arith)
    ]
  ]

  -- A dispatch either answers REFUSED and changes nothing, or it is one provider call for an
  -- authorized challenge: the UPDATE's canonical zone is routed, its only rrset is a TXT rrset at
  -- the route's record with a known update class, and the values are its tokens (at most one of
  -- them unless the provider takes several).
  pub dispatch_surface :
      (msg : UpdateMessage N) (source : String) (s : Gateway W D)
      → (dispatch cfg t msg source s ≡ (replied refused, s))
        ⊎ ((c : Challenge N W) × IsAuthorized msg c
            × (dispatch cfg t msg source s ≡ invoke_provider cfg t c s))
  unfolding dispatch
  dispatch_surface msg source s = elim (Option-cases (admit cfg t msg source)) [
    | inl refused_ ↦ inl (ground arith)
    | inr (c, h) ↦ inr (c, admit-IsAuthorized msg source c h, ground arith)
  ]
