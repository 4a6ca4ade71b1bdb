-- ===== src/Api/Endpoints/Secrets.antt =====
-- What the reads of the management API can show: the encrypted columns have no part in it.
use astropath_dns_relay.Prelude.{
  ℕ, Bool, true, ◌≡◌, refl, sym, ap, ◌∙◌, Option, none, some, List, [], ◌∷◌, map, Text, contains,
  text_eq, text_beq, nat_eq, ◌==◌, arith, Option-cases, Bool-cases, inl, inr,
}
use astropath_dns_relay.Models.{Backend, Domain, TsigKey, Tables}
use astropath_dns_relay.Store.{Kek, Json}
use astropath_dns_relay.Audit.{list_events}
use astropath_dns_relay.Api.RateLimit.{login_rate_limiter}
use astropath_dns_relay.Api.Auth.{AuthStore, Argon2}
use astropath_dns_relay.Api.Csrf.{safe_methods}
use astropath_dns_relay.Api.Rows.{Schemas, get_backend}
use astropath_dns_relay.Api.Views.{
  backend_read, domain_read, tsig_key_read, list_backends, read_backend, list_domains,
  list_tsig_keys,
}
use astropath_dns_relay.Api.App.{readyz}
use astropath_dns_relay.Api.Endpoints.{
  gets_readyz, readiness, Management, Endpoint, lists_backends, lists_domains, lists_tsig_keys,
  lists_tokens, logs_out, gets_backend, lists_events, logs_in, changes_password, creates_token,
  revokes_token, changes_rows, ApiResponse, endpoint_method,
}
use astropath_dns_relay.Api.Endpoints.Serve.{probes_of, with_database, handle_endpoint}
use astropath_dns_relay.Api.Endpoints.Safe.{rows_unsafe}

module _ {T : Type 0} where
  -- The rows without their tokens; of an optional one stays whether there is one.
  abbrev pub blind_backend : Backend T → Backend Unit
  blind_backend row = record {
    id = row.id;
    name = row.name;
    type = row.type;
    config_encrypted = tt;
    created_at = row.created_at;
    updated_at = row.updated_at;
  }

  abbrev pub blind_secret : Option T → Option (Unit {0})
  blind_secret none = none
  blind_secret (some token) = some tt

  abbrev pub blind_domain : Domain T → Domain Unit
  blind_domain row = record {
    id = row.id;
    zone = row.zone;
    backend_id = row.backend_id;
    record_name = row.record_name;
    secret_encrypted = blind_secret row.secret_encrypted;
    created_at = row.created_at;
  }

  abbrev pub blind_key : TsigKey T → TsigKey Unit
  blind_key row = record {
    id = row.id;
    name = row.name;
    algorithm = row.algorithm;
    secret_encrypted = tt;
    created_at = row.created_at;
  }

  abbrev pub blind_tables : Tables T → Tables Unit
  blind_tables tables = record {
    backends = map blind_backend tables.backends;
    domains = map blind_domain tables.domains;
    tsig_keys = map blind_key tables.tsig_keys;
  }

  list_backends_blind :
      (rows : List (Backend T)) → list_backends (map blind_backend rows) ≡ list_backends rows
  unfolding list_backends backend_read
  list_backends_blind [] = refl
  list_backends_blind (row ∷ rows) = ap (backend_read row ∷◌) (list_backends_blind rows)

  read_backend_blind :
      (i : ℕ) (rows : List (Backend T))
      → read_backend i (map blind_backend rows) ≡ read_backend i rows
  unfolding read_backend get_backend backend_read
  read_backend_blind i [] = refl
  read_backend_blind i (row ∷ rows) = elim (Bool-cases (row.id == i)) [
    | inl same ↦ ground (arith, same)
    | inr other ↦ ground (arith, other, read_backend_blind i rows)
  ]

  domain_read_blind : (row : Domain T) → domain_read (blind_domain row) ≡ domain_read row
  unfolding domain_read
  domain_read_blind row = elim (Option-cases row.secret_encrypted) [
    | inl absent ↦ ground (arith, absent)
    | inr (token, there) ↦ ground (arith, there)
  ]

  list_domains_blind :
      (rows : List (Domain T)) → list_domains (map blind_domain rows) ≡ list_domains rows
  unfolding list_domains
  list_domains_blind [] = refl
  list_domains_blind (row ∷ rows) = cc (domain_read_blind row, list_domains_blind rows)

  list_tsig_keys_blind :
      (rows : List (TsigKey T)) → list_tsig_keys (map blind_key rows) ≡ list_tsig_keys rows
  unfolding list_tsig_keys tsig_key_read
  list_tsig_keys_blind [] = refl
  list_tsig_keys_blind (row ∷ rows) = ap (tsig_key_read row ∷◌) (list_tsig_keys_blind rows)

-- Of a cache, whether there is one and whether it is populated.
abbrev pub population : {S : Type 0} → Option (Option S) → Option (Option (Unit {0}))
population none = none
population (some none) = some none
population (some (some snapshot)) = some (some tt)

module _ {S T : Type 0} where
  -- What the reads depend on: neither the tokens, nor the snapshot, nor the limiter.
  abbrev pub blinded : Management S T → Management Unit Unit
  blinded m = record {
    tables = blind_tables m.tables;
    cache = population m.cache;
    limiter = login_rate_limiter;
    store = m.store;
    events = m.events;
  }

  with_database_blind :
      (session : Bool) (m : Management S T) (handler : AuthStore → ApiResponse × Management S T)
      (handler' : AuthStore → ApiResponse × Management Unit Unit)
      → ((store : AuthStore) → (handler store).0 ≡ (handler' store).0)
      → (with_database session m handler).0 ≡ (with_database session (blinded m) handler').0
  unfolding with_database
  with_database_blind session m handler handler' h = elim (Option-cases m.store) [
    | inl absent ↦ ground arith
    | inr (store, there) ↦ ground (arith, h store)
  ]

module _ {S T J : Type 0} (load : Tables T → Option S) (kek : Kek T) (json : Json J)
    (schemas : Schemas J) (argon2 : Argon2) (hash_token : Text → Text) where
  abbrev no_load : Tables Unit → Option (Unit {0})
  no_load tables = none

  abbrev no_kek : Kek Unit
  no_kek = record { encrypt = λ noise text. tt; decrypt = λ token. none }

  probes_blind :
      (accepting : Option Bool) (answers : Bool) (m : Management S T)
      → probes_of accepting answers (blinded m) ≡ probes_of accepting answers m
  unfolding probes_of
  probes_blind accepting answers m = by_cache m.cache refl
    where
      by_cache :
          (cache : Option (Option S))
          → m.cache ≡ cache
          → probes_of accepting answers (blinded m) ≡ probes_of accepting answers m
      by_cache none e = ground (arith, e)
      by_cache (some none) e = ground (arith, e)
      by_cache (some (some snapshot)) e = ground (arith, e)

  shown :
      (endpoint : Endpoint J) (session : Bool) (m : Management S T)
      → contains safe_methods (endpoint_method endpoint) ≡ true
      → (handle_endpoint load kek json schemas argon2 hash_token endpoint session m).0
        ≡ (handle_endpoint no_load no_kek json schemas argon2 hash_token endpoint session
            (blinded m)).0
  unfolding handle_endpoint endpoint_method contains text_beq
  shown logs_out session m h = cc
  shown (logs_in _ _ _) session m h = cc
  shown (changes_password _ _ _) session m h = cc
  shown (creates_token _ _ _ _) session m h = cc
  shown (revokes_token _) session m h = cc
  shown (changes_rows request) session m h = cc (rows_unsafe request)
  shown (gets_backend i) session m h = with_database_blind session m _ _ (λ _.
      elim (Option-cases (read_backend i m.tables.backends)) [
        | inl absent ↦ ground (arith, read_backend_blind i m.tables.backends)
        | inr (row, there) ↦ ground (arith, read_backend_blind i m.tables.backends)
      ])
  shown lists_backends session m h =
      with_database_blind session m _ _ (λ _. cc (list_backends_blind m.tables.backends))
  shown lists_domains session m h =
      with_database_blind session m _ _ (λ _. cc (list_domains_blind m.tables.domains))
  shown lists_tsig_keys session m h =
      with_database_blind session m _ _ (λ _. cc (list_tsig_keys_blind m.tables.tsig_keys))
  shown lists_tokens session m h = with_database_blind session m _ _ (λ _. refl)
  shown (lists_events limit offset) session m h = with_database_blind session m _ _ (λ _.
      elim (Option-cases (list_events limit offset m.events)) [
        | inl refused ↦ ground (arith, refused)
        | inr (page, there) ↦ ground (arith, there)
      ])
  shown (gets_readyz accepting answers) session m h =
      ap
        (λ p.
          let r = readyz p in record { status = r.status; body = readiness r; session = session })
        (sym (probes_blind accepting answers m))
  shown _ session m h = refl

  -- The response to a request with a safe method does not depend on the secrets: it is the same for
  -- two states that differ only in the encrypted columns of their tables, where of a domain's only
  -- whether it has one counts, in the snapshot of their cache, of which only whether there is one
  -- counts, and in their rate limiter, with the same session.
  pub reads_hide_secrets :
      (endpoint : Endpoint J) (session : Bool) (m m' : Management S T)
      → contains safe_methods (endpoint_method endpoint) ≡ true
      → blinded m ≡ blinded m'
      → (handle_endpoint load kek json schemas argon2 hash_token endpoint session m).0
        ≡ (handle_endpoint load kek json schemas argon2 hash_token endpoint session m').0
  reads_hide_secrets endpoint session m m' safe same =
      shown endpoint session m safe
      ∙ ap
          (λ b.
            (handle_endpoint no_load no_kek json schemas argon2 hash_token endpoint session b).0)
          same
      ∙ sym (shown endpoint session m' safe)
