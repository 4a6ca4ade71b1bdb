-- ===== src/Api/Rows/Requests.antt =====
-- The handlers and whole sequences of requests.
use astropath_dns_relay.Prelude.{
  ℕ, true, ◌≡◌, Option, none, some, List, [], ◌∷◌, Text, nat_eq, text_eq, All-append, arith,
  Bool-cases, Option-cases, inl, inr,
}
use astropath_dns_relay.Models.{Backend, Domain, TsigKey, Tables}
use astropath_dns_relay.Store.{Kek, Json, build_backend, build_domain, build_tsig_key}
use astropath_dns_relay.DataPlane.Tsig.{algorithm_from_text}
use astropath_dns_relay.Api.Rows.{
  has, Fresh, Schemas, Request, creates_backend, updates_backend, deletes_backend, creates_domain,
  deletes_domain, creates_tsig_key, revokes_tsig_key, validated_config, get_backend, create_domain,
  create_tsig_key, create_backend, new_config, restamp, update_backend, handle, respond,
  respond_all,
}
use astropath_dns_relay.Api.Rows.Sound.{IsSound, Distinct-append}
use astropath_dns_relay.Api.Rows.Commits.{
  add_backend-IsSound, delete_backend-IsSound, delete_domain-IsSound, revoke_tsig_key-IsSound,
  commit_backend-IsSound,
}

module _ {T : Type 0} where
  module _ (kek : Kek T) where
    create_domain-IsSound :
        (fresh : Fresh) (zone : Text) (i : ℕ) (record_name : Text) (key : Option Text)
        (tables : Tables T)
        → IsSound tables
        → IsSound (create_domain kek fresh zone i record_name key tables).1
    unfolding create_domain build_domain
    create_domain-IsSound fresh zone i record_name key tables s =
        let row = build_domain kek fresh.noise fresh.id fresh.now zone i record_name key in
        elim (Bool-cases (has (λ (b : Backend T). b.id) tables.backends i)) [
          | inr absent ↦ rw absent s
          | inl there ↦ elim (Bool-cases (has (λ (r : Domain T). r.zone) tables.domains zone)) [
            | inl taken ↦ rw (there, taken) s
            | inr free ↦
                rw (there, free)
                  (record {
                    served =
                        All-append
                          (λ (d : Domain T).
                            has (λ (b : Backend T). b.id) tables.backends d.backend_id ≡ true)
                          tables.domains (row ∷ []) s.served (there, tt);
                    names = s.names;
                    zones =
                        Distinct-append (λ (r : Domain T). r.zone) tables.domains row free s.zones;
                    keys = s.keys;
                  })
          ]
        ]

    create_tsig_key-IsSound :
        (fresh : Fresh) (name algorithm secret : Text) (tables : Tables T)
        → IsSound tables
        → IsSound (create_tsig_key kek fresh name algorithm secret tables).1
    unfolding create_tsig_key build_tsig_key
    create_tsig_key-IsSound fresh name algorithm secret tables s =
        let row = build_tsig_key kek fresh.noise fresh.id fresh.now name algorithm secret in
        elim (Option-cases (algorithm_from_text algorithm)) [
          | inl unknown ↦ rw (unknown, create_tsig_key) s
          | inr (a, known) ↦
              elim (Bool-cases (has (λ (r : TsigKey T). r.name) tables.tsig_keys name)) [
                | inl taken ↦ rw (known, create_tsig_key, taken) s
                | inr free ↦
                    rw (known, create_tsig_key, free)
                      (record {
                        served = s.served;
                        names = s.names;
                        zones = s.zones;
                        keys =
                            Distinct-append (λ (r : TsigKey T). r.name) tables.tsig_keys row free
                              s.keys;
                      })
              ]
        ]

    module _ {J : Type 0} (json : Json J) (schemas : Schemas J) where
      create_backend-IsSound :
          (fresh : Fresh) (name type : Text) (config : J) (tables : Tables T)
          → IsSound tables
          → IsSound (create_backend kek json schemas fresh name type config tables).1
      unfolding create_backend
      create_backend-IsSound fresh name type config tables s =
          elim (Option-cases (validated_config schemas type config)) [
            | inl invalid ↦ rw (invalid, create_backend) s
            | inr (config', valid) ↦
                rw (valid, create_backend)
                  (add_backend-IsSound
                    (build_backend kek json fresh.noise fresh.id fresh.now name type config') tables
                    s)
          ]

      update_backend-IsSound :
          (fresh : Fresh) (i : ℕ) (name : Option Text) (config : Option J) (tables : Tables T)
          → IsSound tables
          → IsSound (update_backend kek json schemas fresh i name config tables).1
      unfolding update_backend
      update_backend-IsSound fresh i name config tables s =
          elim (Option-cases (get_backend tables.backends i)) [
            | inl absent ↦ rw (absent, update_backend) s
            | inr (backend, found) ↦
                let name' : Text = elim name [ none ↦ backend.name | some n ↦ n ] in
                rw (found, update_backend)
                  (commit_backend-IsSound i name'
                    (restamp kek json schemas fresh.now backend name' config)
                    (new_config kek json schemas fresh.noise backend config) tables s)
          ]

      handle-IsSound :
          (request : Request J) (tables : Tables T)
          → IsSound tables
          → IsSound (handle kek json schemas request tables).1
      unfolding handle
      handle-IsSound (creates_backend fresh name type config) =
          create_backend-IsSound fresh name type config
      handle-IsSound (updates_backend fresh i name config) =
          update_backend-IsSound fresh i name config
      handle-IsSound (deletes_backend i) = delete_backend-IsSound i
      handle-IsSound (creates_domain fresh zone i record_name key) =
          create_domain-IsSound fresh zone i record_name key
      handle-IsSound (deletes_domain i) = delete_domain-IsSound i
      handle-IsSound (creates_tsig_key fresh name algorithm secret) =
          create_tsig_key-IsSound fresh name algorithm secret
      handle-IsSound (revokes_tsig_key i) = revoke_tsig_key-IsSound i

      module _ {S : Type 0} (load : Tables T → Option S) where
        respond_tables :
            (request : Request J) (tables : Tables T) (cache : Option (Option S))
            → (respond load kek json schemas request (tables, cache)).1.0
              ≡ (handle kek json schemas request tables).1
        unfolding respond
        respond_tables request tables cache = ground arith

        -- Any sequence of requests that create, change and delete backends, domains and TSIG keys,
        -- refused ones included, keeps the tables sound: every domain has its backend, and no two
        -- backends, domains or keys share a name or a zone.
        pub respond_all-IsSound :
            (requests : List (Request J)) (state : Tables T × Option (Option S))
            → IsSound state.0
            → IsSound (respond_all load kek json schemas requests state).0
        unfolding respond_all
        respond_all-IsSound [] state s = s
        respond_all-IsSound (request ∷ requests) (tables, cache) s =
            respond_all-IsSound requests (respond load kek json schemas request (tables, cache)).1
              (rw (respond_tables request tables cache) (handle-IsSound request tables s))
