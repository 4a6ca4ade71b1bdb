-- ===== src/Tests/Config.antt =====
-- The stored configuration, the key list and the assembly on small inputs. Encryption is a stand-in: a
-- token is the key with the text.
use astropath_dns_relay.Prelude.{
  ℕ, true, false, ◌≡◌, ◌≢◌, inl, inr, refl, sym, Option, none, some, List, [], ◌∷◌, map, Text,
  codes, All, arith, contains, nat_eq, nat_beq_iff, if◌then◌else◌, length, is_space, text_beq,
}
use astropath_dns_relay.Prelude.Dict.{lookup}
use astropath_dns_relay.Prelude.Optional.{traverse}
use astropath_dns_relay.Dns.{name_eq}
use astropath_dns_relay.Dns.Labels.{Labels, labels_dns, name, canonicalize}
use astropath_dns_relay.Providers.Hurricane.{register_record_key, hurricane_init}
use astropath_dns_relay.Crypto.{is_separator, FernetLibrary, MultiFernetLaws, Among}
use astropath_dns_relay.Crypto.Keylist.{IsEntry, IsGap}
use astropath_dns_relay.Models.{Backend, Tables}
use astropath_dns_relay.Rotation.{rotate_stored_secrets}
use astropath_dns_relay.Rotation.Drop.{
  TablesHold, Secrets, rotate, rotate_stored_secrets-TablesHold,
}
use astropath_dns_relay.Store.{Kek, Json, build_backend}
use astropath_dns_relay.DataPlane.Tsig.{Algorithm, TsigKeySpec, build_keyring}
use astropath_dns_relay.Assembly.{
  ZoneConfig, BackendConfig, BootstrapConfig, Toolkit, DataPlaneRuntime, build_data_plane,
  hurricane,
}
use astropath_dns_relay.Assembly.Runtime.{IsRuntime, build_data_plane-IsRuntime}
use astropath_dns_relay.Cache.{load_config_from_db, backend_by_id}
use astropath_dns_relay.Cache.Loading.{
  Write, Mapping, write_tsig, write_backend, write_domain, AreZones, load_config_from_db-write,
}
use astropath_dns_relay.Cache.Refresh.{Versions, Holder, Shared}

comma-IsGap : IsGap (codes ", ")
unfolding is_separator is_space
comma-IsGap = (refl, (refl, tt))

plain_keys : All IsEntry (codes "new" ∷ codes "old" ∷ [])
unfolding is_separator is_space
plain_keys = ((refl, (refl, (refl, tt))), ((refl, (refl, (refl, tt))), tt))

abbrev Token : Type 0
Token = ℕ × Text

abbrev encrypt_with : List ℕ → Text → Token
encrypt_with [] text = (0, text)
encrypt_with (f ∷ fs) text = (f, text)

abbrev rotate_with : List ℕ → Token → Option Token
rotate_with [] token = none
rotate_with (f ∷ fs) (g, text) = if contains (f ∷ fs) g then some (f, text) else none

-- The length of a key's text is the key, and it must not be empty.
abbrev valid_key : Text → Option ℕ
valid_key [] = none
valid_key (c ∷ s) = some (length (c ∷ s))

abbrev toy : FernetLibrary ℕ (List ℕ) Token
toy = record {
  fernet = valid_key;
  multi_fernet = λ fs. fs;
  encrypt = λ fs noise text. encrypt_with fs text;
  decrypt = λ fs (g, text). if contains fs g then some text else none;
  rotate = λ fs noise token. rotate_with fs token;
}

abbrev IsUnder : ℕ → Token → Text → Type 0
IsUnder f (g, t) text = (f ≡ g) × (t ≡ text)

contains-Among : (g : ℕ) (fs : List ℕ) → Among g fs → contains fs g ≡ true
unfolding contains
contains-Among g [] h = absurd h
contains-Among g (f ∷ fs) (inl e) = ground (arith, nat_beq_iff f g)
contains-Among g (f ∷ fs) (inr h) = ground (arith, contains-Among g fs h)

toy_laws : MultiFernetLaws toy
toy_laws = record {
  Under = IsUnder;
  encrypts = λ f fs noise text. (refl, refl);
  decrypts = λ f fs (g, t) text among (same, e). ground (arith, e, same, contains-Among f fs among);
  rotates = λ f g fs noise (h, t) text among (same, e).
      ((f, t), ground (arith, e, same, contains-Among g (f ∷ fs) among), (refl, e));
}

-- One backend encrypted with the retiring key 3, and a zone without a secret.
abbrev old_tables : Tables Token
old_tables = record {
  backends =
      record {
        id = 1;
        name = codes "he";
        type = codes "hurricane";
        config_encrypted = (3, codes "{}");
        created_at = 0;
        updated_at = 0;
      }
      ∷ [];
  domains =
      record {
        id = 1;
        zone = codes "example.com";
        backend_id = 1;
        record_name = codes "_acme-challenge.example.com";
        secret_encrypted = none;
        created_at = 0;
      }
      ∷ [];
  tsig_keys = [];
}

abbrev old_secrets : Secrets toy toy_laws 5 (3 ∷ [])
old_secrets = record { configs = codes "{}" ∷ []; dynamic_keys = none ∷ []; tsig_secrets = [] }

old_tables_hold : TablesHold toy toy_laws 5 (3 ∷ []) (5 ∷ 3 ∷ []) old_tables old_secrets
unfolding toy_laws
old_tables_hold = (((3, inr (inl refl), (refl, refl)), tt), (tt, tt), tt)

rotate_stored_secrets-TablesHold_example :
    (tables : Tables Token) × (rotate_stored_secrets (rotate toy toy_laws 5 (3 ∷ [])) old_tables
      ≡ some (record { backends = 1; domains = 0; tsig_keys = 0 }, tables))
    × TablesHold toy toy_laws 5 (3 ∷ []) (5 ∷ []) tables old_secrets
rotate_stored_secrets-TablesHold_example =
    rotate_stored_secrets-TablesHold toy toy_laws 5 (3 ∷ []) old_tables old_secrets old_tables_hold

-- A key is its secret.
abbrev key_from : Labels → Text → Algorithm → Option Text
key_from n secret algorithm = some secret

abbrev acme_key : TsigKeySpec
acme_key = record {
  name = codes "acme-key";
  algorithm = codes "hmac-sha256";
  secret_b64 = codes "c2VjcmV0";
}

-- JSON is its text.
abbrev text_json : Json Text
text_json = record { dumps = λ j. some j; loads = λ s. some s }

abbrev kit : Toolkit Labels Text Text
kit = record {
  tsig_key = key_from;
  empty_config = codes "{}";
  hurricane_config = λ j. some (codes "acme-challenge-cleared");
  route53_config = λ j. some (codes "Z1", false);
}

abbrev he_zone : ZoneConfig
he_zone = record {
  zone = codes "example.com";
  provider = codes "hurricane";
  record_name = codes "_acme-challenge.example.com";
  he_dynamic_key = some (codes "k1");
  backend = some (codes "he");
}

abbrev he_config : BootstrapConfig Text
he_config = record {
  tsig_keys = acme_key ∷ [];
  zones = he_zone ∷ [];
  backends = record { name = codes "he"; provider = codes "hurricane"; config = codes "{}" } ∷ [];
}

-- The assembled data plane of the configuration above.
abbrev he_runtime : DataPlaneRuntime Labels Text
he_runtime = record {
  keyring = (name "acme-key", codes "c2VjcmV0") ∷ [];
  routes =
      record {
        zone = name "example.com";
        key = codes "he";
        record_name = name "_acme-challenge.example.com";
      }
      ∷ [];
  providers =
      (
        codes "he",
        hurricane (record {
          record_keys = (codes "_acme-challenge.example.com", codes "k1") ∷ [];
          cleanup_placeholder = codes "acme-challenge-cleared";
        }),
      )
      ∷ [];
}

assembled : build_data_plane kit he_config ≡ some he_runtime
unfolding build_data_plane name build_keyring text_beq canonicalize register_record_key
    hurricane_init
assembled = refl

build_data_plane-IsRuntime_example : IsRuntime kit he_config he_runtime
build_data_plane-IsRuntime_example = build_data_plane-IsRuntime kit he_config he_runtime assembled

abbrev toy_kek : Kek Token
toy_kek = record { encrypt = λ noise text. (noise, text); decrypt = λ token. some token.1 }

abbrev written : Write
written = record { noise = 9; id = 1; now = 100 }

abbrev he_mapping : Mapping
he_mapping = record {
  zone = codes "example.com";
  backend_id = 1;
  record_name = codes "r";
  key = some (codes "k1");
}

abbrev he_row : Backend Token
he_row = record {
  id = 1;
  name = codes "he";
  type = codes "hurricane";
  config_encrypted = (9, codes "{}");
  created_at = 100;
  updated_at = 100;
}

abbrev he_backend : BackendConfig Text
he_backend = record { name = codes "he"; provider = codes "hurricane"; config = codes "{}" }

wrote_backend :
    traverse (write_backend toy_kek text_json) ((written, he_backend) ∷ []) ≡ some (he_row ∷ [])
unfolding traverse build_backend
wrote_backend = refl

known_backend :
    All
      (λ (x : Write × Mapping).
        lookup x.1.backend_id (backend_by_id toy_kek text_json (he_row ∷ [])) ≢ none)
      ((written, he_mapping) ∷ [])
unfolding lookup backend_by_id
known_backend = ((λ e. cc), tt)

load_config_from_db-write_example :
    (zones : List ZoneConfig) × (load_config_from_db toy_kek text_json (record {
      backends = he_row ∷ [];
      domains = map (write_domain toy_kek text_json) ((written, he_mapping) ∷ []);
      tsig_keys = map (write_tsig toy_kek text_json) ((written, acme_key) ∷ []);
    })
      ≡ some (record {
        tsig_keys = map (λ (x : Write × TsigKeySpec). x.1) ((written, acme_key) ∷ []);
        zones = zones;
        backends = map (λ (x : Write × BackendConfig Text). x.1) ((written, he_backend) ∷ []);
      }))
    × AreZones toy_kek text_json
        (backend_by_id toy_kek text_json (he_row ∷ []))
        ((written, he_mapping) ∷ [])
        zones
load_config_from_db-write_example =
    load_config_from_db-write toy_kek text_json (λ noise text. refl) (λ j payload e. sym e)
      ((written, acme_key) ∷ []) ((written, he_backend) ∷ []) ((written, he_mapping) ∷ [])
      (he_row ∷ []) wrote_backend known_backend

-- Versions load as their numbers. A writer has committed and calls for a refresh; another one commits
-- between the second and the third SELECT of the load.
abbrev numbers : Versions → Option (List ℕ)
numbers v = some (v.keys ∷ v.backends ∷ v.domains ∷ v.ids ∷ [])

abbrev at_version : ℕ → Option Holder → Shared (List ℕ)
at_version v holder = record { version = v; snapshot = none; waiting = []; holder = holder }

abbrev held : List ℕ → Option Holder
held seen = some (record { called = 4; seen = seen })

abbrev torn : Versions
torn = record { keys = 4; backends = 4; domains = 5; ids = 5 }

abbrev refreshed_to : Shared (List ℕ)
refreshed_to = record (at_version 5 none) { snapshot = some (torn, 4 ∷ 4 ∷ 5 ∷ 5 ∷ []) }
