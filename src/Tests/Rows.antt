-- ===== src/Tests/Rows.antt =====
-- A backend and its domain, added and deleted over the management plane.
use astropath_dns_relay.Prelude.{
  ℕ, ◌≡◌, ◌⊎◌, ◌≤◌, ◌<◌, Option, none, some, List, [], ◌∷◌, Text, codes, text_eq, ◌==◌, refl, All,
}
use astropath_dns_relay.Models.{Tables}
use astropath_dns_relay.Store.{Kek, Json, decrypt_json, decrypt_text}
use astropath_dns_relay.Assembly.{BootstrapConfig}
use astropath_dns_relay.Cache.{load_config_from_db, key_of_row}
use astropath_dns_relay.Api.Rows.{
  Fresh, Schemas, Request, creates_backend, deletes_backend, creates_domain, respond, respond_all,
}
use astropath_dns_relay.Api.Rows.Sound.{IsSound}
use astropath_dns_relay.Api.Rows.Requests.{respond_all-IsSound}
use astropath_dns_relay.Api.Rows.Loads.{AreReadable, respond_all_loads}
use astropath_dns_relay.Api.Rows.Outcome.{IsRefreshed, respond_outcome}

abbrev pub plain : Kek Text
plain = record { encrypt = λ noise text. text; decrypt = λ token. some token }

abbrev pub text_json : Json Text
text_json = record { dumps = λ text. some text; loads = λ text. some text }

abbrev pub only_hurricane : Schemas Text
only_hurricane = record {
  is_registered = λ type. type == codes "hurricane";
  model_validate = λ type config. some config;
}

abbrev pub no_tables : Tables Text
no_tables = record { backends = []; domains = []; tsig_keys = [] }

abbrev first : Fresh
first = record { noise = 0; id = 1; now = 10 }

abbrev requests : List (Request Text)
requests =
    creates_backend first (codes "he") (codes "hurricane") (codes "{}")
    ∷ creates_domain first (codes "example.com") 1 (codes "_acme-challenge.example.com") none
    ∷ deletes_backend 1
    ∷ creates_domain first (codes "example.org") 7 (codes "_acme-challenge.example.org") none
    ∷ []

abbrev pub Loaded : Type 0
Loaded = BootstrapConfig Text

abbrev pub loads_tables : Tables Text → Option Loaded
loads_tables tables = load_config_from_db plain text_json tables

no_tables-IsSound : IsSound no_tables
no_tables-IsSound = record { served = tt; names = tt; zones = tt; keys = tt }

respond_all-IsSound_example :
    IsSound (respond_all loads_tables plain text_json only_hurricane requests (no_tables, none)).0
respond_all-IsSound_example =
    respond_all-IsSound plain text_json only_hurricane loads_tables requests (no_tables, none)
      no_tables-IsSound

abbrev answer : ℕ × (Tables Text × Option (Option Loaded))
answer =
    respond loads_tables plain text_json only_hurricane
      (creates_backend first (codes "he") (codes "hurricane") (codes "{}")) (no_tables, some none)

respond_outcome_example :
    ((300 ≤ answer.0) × (answer.1 ≡ (no_tables, some none)))
    ⊎ ((answer.0 < 300) × IsRefreshed (loads_tables answer.1.0) (some none) answer.1.1)
respond_outcome_example =
    respond_outcome plain text_json only_hurricane loads_tables
      (creates_backend first (codes "he") (codes "hurricane") (codes "{}")) no_tables (some none)

each_row : {A : Type 0} (P : A → Type 0) (xs : List A) → ((x : A) → P x) → All P xs
each_row P [] h = tt
each_row P (x ∷ xs) h = (h x, each_row P xs h)

-- In the toy KEK every token can be decrypted.
plain-AreReadable : (tables : Tables Text) → AreReadable plain text_json tables
unfolding decrypt_json decrypt_text key_of_row
plain-AreReadable tables = record {
  configs = each_row _ tables.backends (λ row. (row.config_encrypted, refl));
  dynamic_keys = each_row _ tables.domains (λ row. key_read row.secret_encrypted);
  tsig_secrets = each_row _ tables.tsig_keys (λ row. (row.secret_encrypted, refl));
}
  where
    key_read :
        (secret : Option Text)
        → (key : Option Text) × (key_of_row plain text_json secret ≡ some key)
    key_read none = (none, refl)
    key_read (some token) = (some token, refl)

respond_all_loads_example :
    (loaded : Loaded) × (load_config_from_db plain text_json
        (respond_all loads_tables plain text_json only_hurricane requests (no_tables, none)).0
      ≡ some loaded)
respond_all_loads_example =
    respond_all_loads plain text_json only_hurricane loads_tables requests (no_tables, none)
      no_tables-IsSound
      (plain-AreReadable
        (respond_all loads_tables plain text_json only_hurricane requests (no_tables, none)).0)
