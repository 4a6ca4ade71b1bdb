-- ===== src/Api/Rows/Commits.antt =====
-- The commits that add, change and delete rows, one by one.
use astropath_dns_relay.Prelude.{
  ℕ, true, not, ◌≡◌, Option, none, some, [], ◌∷◌, ◌++◌, Text, nat_eq, text_eq, ◌==◌, Bool-cases,
  inl, inr,
}
use astropath_dns_relay.Prelude.Result.{Result, ok, err}
use astropath_dns_relay.Models.{Backend, Domain, TsigKey, Tables}
use astropath_dns_relay.Api.Rows.{
  has, name_taken, write_backend, is_referenced, add_backend, delete_backend, delete_domain,
  revoke_tsig_key, commit_backend,
}
use astropath_dns_relay.Api.Rows.Sound.{
  IsSound, Distinct-append, Distinct-keep, All-keep, AreServed-mono, has-append, AreServed-keep,
  has-write_backend, Distinct-write_backend,
}

module _ {T : Type 0} where
  pub add_backend-IsSound :
      (o : Option (Backend T)) (tables : Tables T)
      → IsSound tables
      → IsSound (add_backend o tables).1
  unfolding add_backend
  add_backend-IsSound none tables s = s
  add_backend-IsSound (some row) tables s =
      elim (Bool-cases (has (λ (r : Backend T). r.name) tables.backends row.name)) [
        | inl taken ↦ rw taken s
        | inr free ↦ rw free (record {
          served =
              AreServed-mono tables.backends (tables.backends ++ row ∷ []) tables.domains
                (has-append tables.backends row) s.served;
          names = Distinct-append (λ (r : Backend T). r.name) tables.backends row free s.names;
          zones = s.zones;
          keys = s.keys;
        })
      ]

  pub delete_backend-IsSound :
      (i : ℕ) (tables : Tables T) → IsSound tables → IsSound (delete_backend i tables).1
  unfolding delete_backend
  delete_backend-IsSound i tables s =
      elim (Bool-cases (has (λ (row : Backend T). row.id) tables.backends i)) [
        | inr absent ↦ rw absent s
        | inl there ↦ elim (Bool-cases (is_referenced tables.domains i)) [
          | inl used ↦ rw (there, used) s
          | inr unused ↦
              rw (there, unused)
                (record {
                  served = AreServed-keep tables.backends i tables.domains unused s.served;
                  names =
                      Distinct-keep (λ (r : Backend T). r.name) (λ row. not (row.id == i))
                        tables.backends s.names;
                  zones = s.zones;
                  keys = s.keys;
                })
        ]
      ]

  pub delete_domain-IsSound :
      (i : ℕ) (tables : Tables T) → IsSound tables → IsSound (delete_domain i tables).1
  unfolding delete_domain
  delete_domain-IsSound i tables s =
      elim (Bool-cases (has (λ (row : Domain T). row.id) tables.domains i)) [
        | inr absent ↦ rw absent s
        | inl there ↦ rw there (record {
          served =
              All-keep
                (λ (d : Domain T).
                  has (λ (b : Backend T). b.id) tables.backends d.backend_id ≡ true)
                (λ row. not (row.id == i)) tables.domains s.served;
          names = s.names;
          zones =
              Distinct-keep (λ (r : Domain T). r.zone) (λ row. not (row.id == i)) tables.domains
                s.zones;
          keys = s.keys;
        })
      ]

  pub revoke_tsig_key-IsSound :
      (i : ℕ) (tables : Tables T) → IsSound tables → IsSound (revoke_tsig_key i tables).1
  unfolding revoke_tsig_key
  revoke_tsig_key-IsSound i tables s =
      elim (Bool-cases (has (λ (row : TsigKey T). row.id) tables.tsig_keys i)) [
        | inr absent ↦ rw absent s
        | inl there ↦ rw there (record {
          served = s.served;
          names = s.names;
          zones = s.zones;
          keys =
              Distinct-keep (λ (r : TsigKey T). r.name) (λ row. not (row.id == i)) tables.tsig_keys
                s.keys;
        })
      ]

  pub commit_backend-IsSound :
      (i : ℕ) (name : Text) (now : ℕ) (r : Result ℕ T) (tables : Tables T)
      → IsSound tables
      → IsSound (commit_backend i name now r tables).1
  unfolding commit_backend
  commit_backend-IsSound i name now (err status) tables s = s
  commit_backend-IsSound i name now (ok token) tables s =
      elim (Bool-cases (name_taken tables.backends i name)) [
        | inl taken ↦ rw taken s
        | inr free ↦ rw free (record {
          served =
              AreServed-mono tables.backends (write_backend i name token now tables.backends)
                tables.domains (has-write_backend i name token now tables.backends) s.served;
          names = Distinct-write_backend i name token now tables.backends free s.names;
          zones = s.zones;
          keys = s.keys;
        })
      ]
