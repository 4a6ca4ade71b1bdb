-- ===== src/Startup/Checks.antt =====
-- What each of the checks decides, and what its refusal names.
use astropath_dns_relay.Prelude.{
  Bool, true, false, ◌≡◌, ◌≢◌, ◌↔◌, Option, none, some, List, [], ◌∷◌, Text, text_eq, text_beq_iff,
  All, arith, refl, Bool-cases, Option-cases, inl, inr, ◌⊎◌, subst,
}
use astropath_dns_relay.Prelude.Result.{Result, ok, err, ◌>>=◌}
use astropath_dns_relay.Models.{Backend, TsigKey}
use astropath_dns_relay.DataPlane.Tsig.{algorithm_from_text}
use astropath_dns_relay.Crypto.{Among}
use astropath_dns_relay.Startup.{
  Failure, no_spa_dir, unreachable, no_migrations, stale_schema, unknown_provider,
  unsupported_algorithm, other_exception, kek_missing, kek_invalid, Site, check_spa, check_ping,
  same_revision, alembic_head, read, check_revision, check_backends, check_tsig_keys,
}

abbrev pub HasSpa : Option Text → (Text → Bool) → Type 0
HasSpa none is_dir = Unit
HasSpa (some dir) is_dir = is_dir dir ≡ true

module _ {T : Type 0} (site : Site T) where
  abbrev pub AreRegistered : List (Backend T) → Type 0
  AreRegistered rows = All (λ (row : Backend T). site.is_registered row.type ≡ true) rows

  abbrev pub AreSupported : List (TsigKey T) → Type 0
  AreSupported rows = All (λ (row : TsigKey T). algorithm_from_text row.algorithm ≢ none) rows

  pub check_backends_iff :
      (rows : List (Backend T))
      → (check_backends site.is_registered rows ≡ ok tt) ↔ AreRegistered rows
  unfolding check_backends
  check_backends_iff [] = (λ _. tt, λ _. refl)
  check_backends_iff (row ∷ rows) = elim (Bool-cases (site.is_registered row.type)) [
    | inl known ↦
        rw known (λ e. (refl, (check_backends_iff rows).0 e), λ h. (check_backends_iff rows).1 h.1)
    | inr unknown ↦ rw unknown (λ e. cc, λ h. cc (h.0))
  ]

  pub check_tsig_keys_iff :
      (rows : List (TsigKey T)) → (check_tsig_keys rows ≡ ok tt) ↔ AreSupported rows
  unfolding check_tsig_keys
  check_tsig_keys_iff [] = (λ _. tt, λ _. refl)
  check_tsig_keys_iff (row ∷ rows) = elim (Option-cases (algorithm_from_text row.algorithm)) [
    | inr (a, known) ↦
        rw (known, check_tsig_keys)
          (λ e. (λ n. cc, (check_tsig_keys_iff rows).0 e), λ h. (check_tsig_keys_iff rows).1 h.1)
    | inl unknown ↦ rw (unknown, check_tsig_keys) (λ e. cc, λ h. absurd (h.0 refl))
  ]

  same_revision_iff : (a b : Option Text) → (same_revision a b ≡ true) ↔ (a ≡ b)
  unfolding same_revision
  same_revision_iff none none = ground arith
  same_revision_iff none (some b) = ground arith
  same_revision_iff (some a) none = ground arith
  same_revision_iff (some a) (some b) = ground (arith, text_beq_iff a b)

  -- Everything that the process relies on.
  pub record IsReady : Type 0 where
    pub spa : HasSpa site.spa_dir site.is_dir
    pub answers : site.answers ≡ true
    pub revision : Option Text
    pub at_head : site.head ≡ some revision
    pub current : site.revision ≡ some revision
    pub backends : List (Backend T)
    pub reads_backends : site.backends ≡ some backends
    pub registered : AreRegistered backends
    pub tsig_keys : List (TsigKey T)
    pub reads_keys : site.tsig_keys ≡ some tsig_keys
    pub supported : AreSupported tsig_keys

  -- What is wrong, by the exception.
  abbrev pub Explains : Failure → Type 0
  Explains kek_missing = ⊥
  Explains (kek_invalid e) = ⊥
  Explains (no_spa_dir dir) = (site.spa_dir ≡ some dir) × (site.is_dir dir ≡ false)
  Explains unreachable = site.answers ≡ false
  Explains no_migrations = site.head ≡ none
  Explains (stale_schema current head) =
      (site.head ≡ some head) × (site.revision ≡ some current) × (current ≢ head)
  Explains (unknown_provider name type) =
      (rows : List (Backend T)) × (row : Backend T) × (site.backends ≡ some rows)
      × Among row rows
      × (row.name ≡ name)
      × (row.type ≡ type)
      × (site.is_registered type ≡ false)
  Explains (unsupported_algorithm name algorithm) =
      (rows : List (TsigKey T)) × (row : TsigKey T) × (site.tsig_keys ≡ some rows)
      × Among row rows
      × (row.name ≡ name)
      × (row.algorithm ≡ algorithm)
      × (algorithm_from_text algorithm ≡ none)
  Explains other_exception =
      (site.revision ≡ none) ⊎ ((site.backends ≡ none) ⊎ (site.tsig_keys ≡ none))

  -- Ready for a return, and explained for a refusal.
  abbrev pub Verdict : Result Failure (Unit {0}) → Type 0
  Verdict (ok _) = IsReady
  Verdict (err e) = Explains e

  pub step :
      {A : Type 0} (m : Result Failure A) (f : A → Result Failure (Unit {0}))
      → ((e : Failure) → m ≡ err e → Explains e)
      → ((a : A) → m ≡ ok a → Verdict (f a))
      → Verdict (m >>= f)
  step (ok a) f bad good = good a refl
  step (err e) f bad good = bad e refl

  pub last_step :
      (m : Result Failure (Unit {0}))
      → ((e : Failure) → m ≡ err e → Explains e)
      → (m ≡ ok tt → IsReady)
      → Verdict m
  last_step (ok tt) bad good = good refl
  last_step (err e) bad good = bad e refl

  pub spa_refuses :
      (o : Option Text) (e : Failure)
      → site.spa_dir ≡ o
      → check_spa o site.is_dir ≡ err e
      → Explains e
  unfolding check_spa
  spa_refuses none e at h = absurd (cc)
  spa_refuses (some dir) e at h = elim (Bool-cases (site.is_dir dir)) [
    | inl there ↦ absurd (ground (arith, there))
    | inr missing ↦
        let same : no_spa_dir dir ≡ e = ground (arith, missing) in subst Explains same (at, missing)
  ]

  pub spa_passes : (o : Option Text) → check_spa o site.is_dir ≡ ok tt → HasSpa o site.is_dir
  unfolding check_spa
  spa_passes none h = tt
  spa_passes (some dir) h = ground arith

  pub revision_refuses :
      (head current : Option Text) (e : Failure)
      → site.head ≡ some head
      → site.revision ≡ some current
      → check_revision head current ≡ err e
      → Explains e
  unfolding check_revision
  revision_refuses head current e at now h = elim (Bool-cases (same_revision current head)) [
    | inl same ↦ absurd (ground (arith, same))
    | inr differs ↦
        let is : stale_schema current head ≡ e = ground (arith, differs) in
        subst Explains is (at, now, λ q. ground (arith, same_revision_iff current head))
  ]

  pub revision_passes :
      (head current : Option Text) → check_revision head current ≡ ok tt → current ≡ head
  unfolding check_revision
  revision_passes head current h = ground (arith, same_revision_iff current head)

  pub backends_refuse :
      (rows rest : List (Backend T)) (e : Failure)
      → site.backends ≡ some rows
      → ((row : Backend T) → Among row rest → Among row rows)
      → check_backends site.is_registered rest ≡ err e
      → Explains e
  unfolding check_backends
  backends_refuse rows [] e at sub h = absurd (cc)
  backends_refuse rows (row ∷ rest) e at sub h = elim (Bool-cases (site.is_registered row.type)) [
    | inl known ↦ backends_refuse rows rest e at (λ r m. sub r (inr m)) (ground (arith, known))
    | inr unknown ↦
        let is : unknown_provider row.name row.type ≡ e = ground (arith, unknown) in
        subst Explains is (rows, row, at, sub row (inl refl), refl, refl, unknown)
  ]

  pub tsig_keys_refuse :
      (rows rest : List (TsigKey T)) (e : Failure)
      → site.tsig_keys ≡ some rows
      → ((row : TsigKey T) → Among row rest → Among row rows)
      → check_tsig_keys rest ≡ err e
      → Explains e
  unfolding check_tsig_keys
  tsig_keys_refuse rows [] e at sub h = absurd (cc)
  tsig_keys_refuse rows (row ∷ rest) e at sub h =
      elim (Option-cases (algorithm_from_text row.algorithm)) [
        | inr (a, known) ↦
            tsig_keys_refuse rows rest e at (λ r m. sub r (inr m)) (ground (arith, known))
        | inl unknown ↦
            let is : unsupported_algorithm row.name row.algorithm ≡ e = ground (arith, unknown) in
            subst Explains is (rows, row, at, sub row (inl refl), refl, refl, unknown)
      ]

  pub read_refuses :
      {A : Type 0} (o : Option A) (e : Failure)
      → read o ≡ err e
      → (o ≡ none → Explains other_exception)
      → Explains e
  unfolding read
  read_refuses none e h why = let is : other_exception ≡ e = cc in subst Explains is (why refl)
  read_refuses (some a) e h why = absurd (cc)

  pub read_passes : {A : Type 0} (o : Option A) (a : A) → read o ≡ ok a → o ≡ some a
  unfolding read
  read_passes none a h = absurd (cc)
  read_passes (some b) a h = cc

  pub head_refuses :
      (o : Option (Option Text)) (e : Failure) → site.head ≡ o → alembic_head o ≡ err e → Explains e
  unfolding alembic_head
  head_refuses none e at h = let is : no_migrations ≡ e = cc in subst Explains is at
  head_refuses (some head) e at h = absurd (cc)

  pub head_passes :
      (o : Option (Option Text)) (head : Option Text) → alembic_head o ≡ ok head → o ≡ some head
  unfolding alembic_head
  head_passes none head h = absurd (cc)
  head_passes (some b) head h = cc

  pub ping_refuses : (e : Failure) → check_ping site.answers ≡ err e → Explains e
  unfolding check_ping
  ping_refuses e h = elim (Bool-cases site.answers) [
    | inl up ↦ absurd (ground (arith, up))
    | inr down ↦ let is : unreachable ≡ e = ground (arith, down) in subst Explains is down
  ]

  pub ping_passes : check_ping site.answers ≡ ok tt → site.answers ≡ true
  unfolding check_ping
  ping_passes h = ground arith
