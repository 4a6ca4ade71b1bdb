-- ===== src/Api/Rows/Sound.antt =====
-- The tables stay sound, whatever requests come: the domains have their backends, and the unique columns
-- hold no value twice.
use astropath_dns_relay.Prelude.{
  ℕ, Bool, true, false, not, ◌≡◌, ◌≢◌, List, [], ◌∷◌, ◌++◌, Text, nat_eq, text_eq, text_beq_iff,
  ◌==◌, keep, All, arith, Bool-cases, inl, inr, refl,
}
use astropath_dns_relay.Models.{Backend, Domain, TsigKey, Tables}
use astropath_dns_relay.Api.Rows.{has, name_taken, write_backend, is_referenced}

module _ {A : Type 0} where
  abbrev pub Distinct : (A → Text) → List A → Type 0
  Distinct column [] = Unit
  Distinct column (row ∷ rows) = (has column rows (column row) ≡ false) × Distinct column rows

  has-append-false :
      (column : A → Text) (rows : List A) (row : A) (v : Text)
      → has column rows v ≡ false
      → (column row == v) ≡ false
      → has column (rows ++ row ∷ []) v ≡ false
  unfolding has
  has-append-false column [] row v h ne = ground arith
  has-append-false column (r ∷ rows) row v h ne = ground (arith, has-append-false column rows row v)

  pub Distinct-append :
      (column : A → Text) (rows : List A) (row : A)
      → has column rows (column row) ≡ false
      → Distinct column rows
      → Distinct column (rows ++ row ∷ [])
  unfolding has
  Distinct-append column [] row new h = (refl, tt)
  Distinct-append column (r ∷ rows) row new h = (
    has-append-false column rows row (column r) h.0 (
        ground (arith, text_beq_iff (column r) (column row), text_beq_iff (column row) (column r))),
    Distinct-append column rows row (ground arith) h.1,
  )

  has-keep-false :
      (column : A → Text) (p : A → Bool) (rows : List A) (v : Text)
      → has column rows v ≡ false
      → has column (keep p rows) v ≡ false
  unfolding has keep
  has-keep-false column p [] v h = refl
  has-keep-false column p (r ∷ rows) v h = ground (arith, has-keep-false column p rows v)

  pub Distinct-keep :
      (column : A → Text) (p : A → Bool) (rows : List A)
      → Distinct column rows
      → Distinct column (keep p rows)
  unfolding keep
  Distinct-keep column p [] h = tt
  Distinct-keep column p (r ∷ rows) h = elim (Bool-cases (p r)) [
    | inl stays ↦
        rw stays (has-keep-false column p rows (column r) h.0, Distinct-keep column p rows h.1)
    | inr goes ↦ rw goes (Distinct-keep column p rows h.1)
  ]

  pub All-keep : (P : A → Type 0) (p : A → Bool) (rows : List A) → All P rows → All P (keep p rows)
  unfolding keep
  All-keep P p [] h = tt
  All-keep P p (r ∷ rows) h = elim (Bool-cases (p r)) [
    | inl stays ↦ rw stays (h.0, All-keep P p rows h.1)
    | inr goes ↦ rw goes (All-keep P p rows h.1)
  ]

module _ {T : Type 0} where
  abbrev pub backend_id_of : Backend T → ℕ
  backend_id_of row = row.id

  abbrev pub name_of : Backend T → Text
  name_of row = row.name

  -- The backend of every domain is in the table.
  abbrev pub AreServed : List (Backend T) → List (Domain T) → Type 0
  AreServed backends domains =
      All (λ (row : Domain T). has (λ (b : Backend T). b.id) backends row.backend_id ≡ true) domains

  pub record IsSound (tables : Tables T) : Type 0 where
    pub served : AreServed tables.backends tables.domains
    pub names : Distinct (λ (row : Backend T). row.name) tables.backends
    pub zones : Distinct (λ (row : Domain T). row.zone) tables.domains
    pub keys : Distinct (λ (row : TsigKey T). row.name) tables.tsig_keys

  pub AreServed-mono :
      (rows new : List (Backend T)) (domains : List (Domain T))
      → ((i : ℕ) → has backend_id_of rows i ≡ true → has backend_id_of new i ≡ true)
      → AreServed rows domains
      → AreServed new domains
  AreServed-mono rows new [] mono h = tt
  AreServed-mono rows new (d ∷ domains) mono h =
      (mono d.backend_id h.0, AreServed-mono rows new domains mono h.1)

  pub has-append :
      (rows : List (Backend T)) (row : Backend T) (i : ℕ)
      → has backend_id_of rows i ≡ true
      → has backend_id_of (rows ++ row ∷ []) i ≡ true
  unfolding has
  has-append [] row i h = cc
  has-append (r ∷ rows) row i h = ground (arith, has-append rows row i)

  has-keep :
      (rows : List (Backend T)) (i j : ℕ)
      → i ≢ j
      → has backend_id_of rows j ≡ true
      → has backend_id_of (keep (λ row. not (row.id == i)) rows) j ≡ true
  unfolding has keep
  has-keep [] i j ne h = cc
  has-keep (r ∷ rows) i j ne h = ground (arith, has-keep rows i j ne)

  pub AreServed-keep :
      (rows : List (Backend T)) (i : ℕ) (domains : List (Domain T))
      → is_referenced domains i ≡ false
      → AreServed rows domains
      → AreServed (keep (λ row. not (row.id == i)) rows) domains
  unfolding has
  AreServed-keep rows i [] n h = tt
  AreServed-keep rows i (d ∷ domains) n h = (
    has-keep rows i d.backend_id (ground arith) h.0,
    AreServed-keep rows i domains (ground arith) h.1,
  )

  pub has-write_backend :
      (i : ℕ) (name : Text) (token : T) (now : ℕ) (rows : List (Backend T)) (j : ℕ)
      → has backend_id_of rows j ≡ true
      → has backend_id_of (write_backend i name token now rows) j ≡ true
  unfolding has write_backend
  has-write_backend i name token now [] j h = cc
  has-write_backend i name token now (r ∷ rows) j h =
      ground (arith, has-write_backend i name token now rows j)

  has_name-write_backend :
      (i : ℕ) (name : Text) (token : T) (now : ℕ) (rows : List (Backend T)) (v : Text)
      → has name_of rows v ≡ false
      → (name == v) ≡ false
      → has name_of (write_backend i name token now rows) v ≡ false
  unfolding has write_backend
  has_name-write_backend i name token now [] v h ne = refl
  has_name-write_backend i name token now (r ∷ rows) v h ne =
      ground (arith, has_name-write_backend i name token now rows v)

  pub Distinct-write_backend :
      (i : ℕ) (name : Text) (token : T) (now : ℕ) (rows : List (Backend T))
      → name_taken rows i name ≡ false
      → Distinct name_of rows
      → Distinct name_of (write_backend i name token now rows)
  unfolding name_taken write_backend
  Distinct-write_backend i name token now [] free h = tt
  Distinct-write_backend i name token now (r ∷ rows) free h = elim (Bool-cases (r.id == i)) [
    | inl here ↦ rw here (ground arith, h.1)
    | inr later ↦ rw later (
      has_name-write_backend i name token now rows r.name h.0
          (ground (arith, text_beq_iff r.name name, text_beq_iff name r.name)),
      Distinct-write_backend i name token now rows (ground arith) h.1,
    )
  ]
