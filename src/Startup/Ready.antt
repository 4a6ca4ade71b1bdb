-- ===== src/Startup/Ready.antt =====
-- The start-up passes exactly when everything is in place, and a refusal names what is at fault.
use mathlib.Core.Option.{some-injective}
use astropath_dns_relay.Prelude.{
  true, ◌≡◌, ◌≢◌, ◌↔◌, ◌⊎◌, inl, inr, none, some, refl, ap, subst, sym, ◌∙◌,
}
use astropath_dns_relay.Prelude.Result.{Result, ok, err}
use astropath_dns_relay.Models.{Backend, TsigKey}
use astropath_dns_relay.DataPlane.Tsig.{algorithm_from_text}
use astropath_dns_relay.Crypto.{All-Among}
use astropath_dns_relay.Startup.{
  Failure, no_spa_dir, unreachable, no_migrations, stale_schema, unknown_provider,
  unsupported_algorithm, other_exception, kek_missing, kek_invalid, Site, check_spa, check_ping,
  alembic_head, read, check_revision, check_backends, check_tsig_keys, validate_db_startup,
}
use astropath_dns_relay.Startup.Checks.{
  HasSpa, AreRegistered, AreSupported, IsReady, Explains, Verdict, step, last_step, spa_refuses,
  spa_passes, revision_refuses, revision_passes, backends_refuse, tsig_keys_refuse, read_refuses,
  read_passes, head_refuses, head_passes, ping_refuses, ping_passes, check_backends_iff,
  check_tsig_keys_iff,
}

pub Result-cases : (r : Result Failure (Unit {0})) → (r ≡ ok tt) ⊎ ((e : Failure) × (r ≡ err e))
Result-cases (ok tt) = inl refl
Result-cases (err e) = inr (e, refl)

module _ {T : Type 0} (site : Site T) where
  validate_db_startup-Verdict : Verdict site (validate_db_startup site)
  unfolding validate_db_startup
  validate_db_startup-Verdict =
      step site (check_spa site.spa_dir site.is_dir) _
        (λ e h. spa_refuses site site.spa_dir e refl h)
        λ _ spa. step site (check_ping site.answers) _ (ping_refuses site) λ _ up.
          step site (alembic_head site.head) _ (λ e h. head_refuses site site.head e refl h)
            λ head at.
              step site (read site.revision) _
                (λ e h. read_refuses site site.revision e h (λ n. inl n))
                λ current now.
                  step site (check_revision head current) _
                    (λ e h.
                      revision_refuses site head current e (head_passes site site.head head at)
                        (read_passes site site.revision current now) h)
                    λ _ fresh.
                      step site (read site.backends) _
                        (λ e h. read_refuses site site.backends e h (λ n. inr (inl n)))
                        λ backends bs.
                          step site (read site.tsig_keys) _
                            (λ e h. read_refuses site site.tsig_keys e h (λ n. inr (inr n)))
                            λ keys ks.
                              step site (check_backends site.is_registered backends) _
                                (λ e h.
                                  backends_refuse site backends backends e
                                    (read_passes site site.backends backends bs) (λ r m. m) h)
                                λ _ known.
                                  last_step site (check_tsig_keys keys)
                                    (λ e h.
                                      tsig_keys_refuse site keys keys e
                                        (read_passes site site.tsig_keys keys ks) (λ r m. m) h)
                                    (λ supported. record {
                                      spa = spa_passes site site.spa_dir spa;
                                      answers = ping_passes site up;
                                      revision = head;
                                      at_head = head_passes site site.head head at;
                                      current = rw (read_passes site site.revision current now) (
                                          ap (λ x. some x)
                                            (revision_passes site head current fresh));
                                      backends = backends;
                                      reads_backends = read_passes site site.backends backends bs;
                                      registered = (check_backends_iff site backends).0 known;
                                      tsig_keys = keys;
                                      reads_keys = read_passes site site.tsig_keys keys ks;
                                      supported = (check_tsig_keys_iff site keys).0 supported;
                                    })

  -- What a refusal names is not in place.
  clash : (e : Failure) → Explains site e → IsReady site → ⊥
  clash kek_missing x r = x
  clash (kek_invalid e) x r = x
  clash (no_spa_dir dir) x r =
      let there : site.is_dir dir ≡ true = subst (λ o. HasSpa o site.is_dir) x.0 r.spa in cc
  clash unreachable x r = let up : site.answers ≡ true = r.answers in cc
  clash no_migrations x r = let at : site.head ≡ some r.revision = r.at_head in cc
  clash (stale_schema current head) x r =
      x.2 (some-injective _ _ (sym x.1 ∙ r.current ∙ sym r.at_head ∙ x.0))
  clash (unknown_provider name type) (rows, row, at, m, n, t, unknown) r =
      let same : r.backends ≡ rows = some-injective _ _ (sym r.reads_backends ∙ at) in
      let known =
        All-Among (λ (row : Backend T). site.is_registered row.type ≡ true) rows row
          (subst (AreRegistered site) same r.registered) m in
      let is : site.is_registered type ≡ true = subst (λ t. site.is_registered t ≡ true) t known in
      cc
  clash (unsupported_algorithm name algorithm) (rows, row, at, m, n, a, unknown) r =
      let same : r.tsig_keys ≡ rows = some-injective _ _ (sym r.reads_keys ∙ at) in
      let known =
        All-Among (λ (row : TsigKey T). algorithm_from_text row.algorithm ≢ none) rows row
          (subst (AreSupported site) same r.supported) m in
      known (ap algorithm_from_text a ∙ unknown)
  clash other_exception (inl n) r = let q : site.revision ≡ some r.revision = r.current in cc
  clash other_exception (inr (inl n)) r =
      let q : site.backends ≡ some r.backends = r.reads_backends in cc
  clash other_exception (inr (inr n)) r =
      let q : site.tsig_keys ≡ some r.tsig_keys = r.reads_keys in cc

  -- The start-up checks pass exactly when the single-page application's directory is there if one is
  -- set, the database answers, its schema is at the head, and every backend's provider and every
  -- key's algorithm is known. Each refusal explains itself: a missing directory, a database that
  -- does not answer, migrations that are not found, two revisions that differ, a row of the table
  -- with its unknown type or algorithm; any other exception is a read that failed.
  pub validate_db_startup_iff :
      ((validate_db_startup site ≡ ok tt) ↔ IsReady site) × Verdict site (validate_db_startup site)
  validate_db_startup_iff = (
    (
      λ h. subst (Verdict site) h validate_db_startup-Verdict,
      λ r. elim (Result-cases (validate_db_startup site)) [
        | inl passed ↦ passed
        | inr (e, refused) ↦
            absurd (clash e (subst (Verdict site) refused validate_db_startup-Verdict) r)
      ],
    ),
    validate_db_startup-Verdict,
  )
