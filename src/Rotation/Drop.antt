-- ===== src/Rotation/Drop.antt =====
-- After a rotation, the first key alone reads every stored secret.
use astropath_dns_relay.Prelude.{
  ℕ, zero, suc, ◌+◌, ◌≡◌, refl, sym, subst, inl, Option, none, some, List, [], ◌∷◌, Text, length,
  arith,
}
use astropath_dns_relay.Crypto.{FernetLibrary, MultiFernetLaws, Among}
use astropath_dns_relay.Models.{Backend, Domain, TsigKey, Tables}
use astropath_dns_relay.Rotation.{
  rotate_backends, rotate_domain, rotate_domains, rotate_tsig_keys, rotate_stored_secrets,
}

module _ {F M T : Type 0} (lib : FernetLibrary F M T) (laws : MultiFernetLaws lib) where
  -- The token is an encryption of the text with one of the keys.
  abbrev pub Stored : List F → T → Text → Type 0
  Stored fs token text = (f : F) × Among f fs × laws.Under f token text

  -- An optional secret that is stored, or that is absent.
  abbrev pub StoredOption : List F → Option T → Option Text → Type 0
  StoredOption fs none none = Unit
  StoredOption fs none (some text) = ⊥
  StoredOption fs (some token) none = ⊥
  StoredOption fs (some token) (some text) = Stored fs token text

  -- The secrets of the rows are encryptions of the given texts, row by row.
  abbrev pub BackendsHold : List F → List (Backend T) → List Text → Type 0
  BackendsHold fs [] [] = Unit
  BackendsHold fs [] (_ ∷ _) = ⊥
  BackendsHold fs (_ ∷ _) [] = ⊥
  BackendsHold fs (row ∷ rows) (text ∷ texts) =
      Stored fs row.config_encrypted text × BackendsHold fs rows texts

  abbrev pub DomainsHold : List F → List (Domain T) → List (Option Text) → Type 0
  DomainsHold fs [] [] = Unit
  DomainsHold fs [] (_ ∷ _) = ⊥
  DomainsHold fs (_ ∷ _) [] = ⊥
  DomainsHold fs (row ∷ rows) (text ∷ texts) =
      StoredOption fs row.secret_encrypted text × DomainsHold fs rows texts

  abbrev pub KeysHold : List F → List (TsigKey T) → List Text → Type 0
  KeysHold fs [] [] = Unit
  KeysHold fs [] (_ ∷ _) = ⊥
  KeysHold fs (_ ∷ _) [] = ⊥
  KeysHold fs (row ∷ rows) (text ∷ texts) =
      Stored fs row.secret_encrypted text × KeysHold fs rows texts

  module _ (f : F) (fs : List F) where
    -- `kek.rotate` of the key list
    abbrev pub rotate : ℕ → T → Option T
    rotate = lib.rotate (lib.multi_fernet (f ∷ fs))

    rotate-Stored :
        (n : ℕ) (token : T) (text : Text)
        → Stored (f ∷ fs) token text
        → (token' : T) × (rotate n token ≡ some token') × Stored (f ∷ []) token' text
    rotate-Stored n token text (g, among, under) =
        let (token', e, under') = laws.rotates f g fs n token text among under in
        (token', e, (f, inl refl, under'))

    rotate_backends_lem :
        (n : ℕ) (rows : List (Backend T)) (texts : List Text)
        → BackendsHold (f ∷ fs) rows texts
        → (rows' : List (Backend T)) × (rotate_backends rotate n rows ≡ some rows')
          × BackendsHold (f ∷ []) rows' texts
          × (length rows' ≡ length rows)
    unfolding rotate_backends
    rotate_backends_lem n [] [] h = ([], refl, tt, refl)
    rotate_backends_lem n (row ∷ rows) [] h = absurd h
    rotate_backends_lem n [] (text ∷ texts) h = absurd h
    rotate_backends_lem n (row ∷ rows) (text ∷ texts) (s, h) =
        let (token, e, s') = rotate-Stored n row.config_encrypted text s in
        let (rows', es, h', count) = rotate_backends_lem (suc n) rows texts h in
        (
          record row { config_encrypted = token } ∷ rows',
          rw (e, es) refl,
          (s', h'),
          omega (arith, count),
        )

    rotate_tsig_keys_lem :
        (n : ℕ) (rows : List (TsigKey T)) (texts : List Text)
        → KeysHold (f ∷ fs) rows texts
        → (rows' : List (TsigKey T)) × (rotate_tsig_keys rotate n rows ≡ some rows')
          × KeysHold (f ∷ []) rows' texts
          × (length rows' ≡ length rows)
    unfolding rotate_tsig_keys
    rotate_tsig_keys_lem n [] [] h = ([], refl, tt, refl)
    rotate_tsig_keys_lem n (row ∷ rows) [] h = absurd h
    rotate_tsig_keys_lem n [] (text ∷ texts) h = absurd h
    rotate_tsig_keys_lem n (row ∷ rows) (text ∷ texts) (s, h) =
        let (token, e, s') = rotate-Stored n row.secret_encrypted text s in
        let (rows', es, h', count) = rotate_tsig_keys_lem (suc n) rows texts h in
        (
          record row { secret_encrypted = token } ∷ rows',
          rw (e, es) refl,
          (s', h'),
          omega (arith, count),
        )

    -- The number of rows that have a secret.
    abbrev pub weight : Option Text → ℕ
    weight none = 0
    weight (some text) = 1

    abbrev pub count_texts : List (Option Text) → ℕ
    count_texts [] = 0
    count_texts (text ∷ texts) = weight text + count_texts texts

    rotate_domain_lem :
        (n : ℕ) (row : Domain T) (secret : Option T) (text : Option Text)
        → row.secret_encrypted ≡ secret
        → StoredOption (f ∷ fs) secret text
        → (row' : Domain T) × (rotate_domain rotate n row secret ≡ some (weight text, row'))
          × StoredOption (f ∷ []) row'.secret_encrypted text
    unfolding rotate_domain
    rotate_domain_lem n row none none e s =
        (row, refl, subst (λ o. StoredOption (f ∷ []) o none) (sym e) tt)
    rotate_domain_lem n row none (some text) e s = absurd s
    rotate_domain_lem n row (some secret) none e s = absurd s
    rotate_domain_lem n row (some secret) (some text) e s =
        let (token, r, s') = rotate-Stored n secret text s in
        (record row { secret_encrypted = some token }, rw r refl, s')

    rotate_domains_lem :
        (n : ℕ) (rows : List (Domain T)) (texts : List (Option Text))
        → DomainsHold (f ∷ fs) rows texts
        → (rows' : List (Domain T)) × (rotate_domains rotate n rows
            ≡ some (count_texts texts, rows'))
          × DomainsHold (f ∷ []) rows' texts
          × (length rows' ≡ length rows)
    unfolding rotate_domains
    rotate_domains_lem n [] [] h = ([], refl, tt, refl)
    rotate_domains_lem n (row ∷ rows) [] h = absurd h
    rotate_domains_lem n [] (text ∷ texts) h = absurd h
    rotate_domains_lem n (row ∷ rows) (text ∷ texts) (s, h) =
        let (row', e, s') = rotate_domain_lem n row row.secret_encrypted text refl s in
        let (rows', es, h', count) = rotate_domains_lem (suc n) rows texts h in
        (row' ∷ rows', rw (e, es) refl, (s', h'), omega (arith, count))

    -- All secrets of a database, column by column.
    pub record Secrets : Type 0 where
      pub configs : List Text
      pub dynamic_keys : List (Option Text)
      pub tsig_secrets : List Text

    abbrev pub TablesHold : List F → Tables T → Secrets → Type 0
    TablesHold keys tables secrets =
        BackendsHold keys tables.backends secrets.configs
        × DomainsHold keys tables.domains secrets.dynamic_keys
        × KeysHold keys tables.tsig_keys secrets.tsig_secrets

    -- If every stored secret is an encryption with some key of the list, `rotate_stored_secrets`
    -- succeeds, and then every row holds the same text encrypted with the first key, in the same order;
    -- the counts are the numbers of backends, of domains that have
    -- a secret, and of TSIG keys.
    pub rotate_stored_secrets-TablesHold :
        (tables : Tables T) (secrets : Secrets)
        → TablesHold (f ∷ fs) tables secrets
        → (tables' : Tables T) × (rotate_stored_secrets rotate tables
            ≡ some (
              record {
                backends = length tables.backends;
                domains = count_texts secrets.dynamic_keys;
                tsig_keys = length tables.tsig_keys;
              },
              tables',
            ))
          × TablesHold (f ∷ []) tables' secrets
    unfolding rotate_stored_secrets
    rotate_stored_secrets-TablesHold tables secrets (b, d, k) =
        let (backends, eb, hb, nb) = rotate_backends_lem zero tables.backends secrets.configs b in
        let (domains, ed, hd, nd) =
          rotate_domains_lem (length backends) tables.domains secrets.dynamic_keys d in
        let (tsig_keys, ek, hk, nk) =
          rotate_tsig_keys_lem (length backends + length domains) tables.tsig_keys
            secrets.tsig_secrets k in
        (
          record { backends = backends; domains = domains; tsig_keys = tsig_keys },
          rw eb (rw ed (rw ek (rw (nk, nb) refl))),
          (hb, hd, hk),
        )
