-- ===== src/Store.antt =====
-- store.py: `SecretCodec` over a KEK, and the row builders. `encrypt` and `decrypt` are the KEK's;
-- texts are UTF-8 in the token. `J` is a JSON value, with `json.dumps` and `json.loads`; `dumps` is
-- none where it raises TypeError. Ids and times come from the database and are arguments.
use astropath_dns_relay.Prelude.{ℕ, Option, none, some, [], ◌∷◌, Text}
use astropath_dns_relay.Prelude.Optional.{◌>>=◌}
use astropath_dns_relay.Models.{Backend, Domain, TsigKey}

pub record Json (J : Type 0) : Type 0 where
  pub dumps : J → Option Text
  pub loads : Text → Option J

-- The KEK that a codec is built on.
pub record Kek (T : Type 0) : Type 0 where
  pub encrypt : ℕ → Text → T
  pub decrypt : T → Option Text

module _ {T : Type 0} (kek : Kek T) where
  unfoldable pub encrypt_text : ℕ → Text → T
  encrypt_text noise text = kek.encrypt noise text

  unfoldable pub decrypt_text : T → Option Text
  decrypt_text token = kek.decrypt token

  module _ {J : Type 0} (json : Json J) where
    unfoldable pub encrypt_json : ℕ → J → Option T
    encrypt_json noise obj = do payload ← json.dumps obj; some (kek.encrypt noise payload)

    unfoldable pub decrypt_json : T → Option J
    decrypt_json token = do payload ← kek.decrypt token; json.loads payload

    unfoldable pub build_backend :
        (noise id now : ℕ) → (name backend_type : Text) → J → Option (Backend T)
    unfolding encrypt_json
    build_backend noise id now name backend_type config = do
      token ← encrypt_json noise config
      some (record {
        id = id;
        name = name;
        type = backend_type;
        config_encrypted = token;
        created_at = now;
        updated_at = now;
      })

  -- `codec.encrypt_text(he_dynamic_key) if he_dynamic_key else None`
  unfoldable pub encrypt_key : ℕ → Option Text → Option T
  unfolding encrypt_text
  encrypt_key noise none = none
  encrypt_key noise (some []) = none
  encrypt_key noise (some (c ∷ key)) = some (encrypt_text noise (c ∷ key))

  unfoldable pub build_domain :
      (noise id now : ℕ)
      → (zone : Text) → (backend_id : ℕ) → (record_name : Text) → Option Text
      → Domain T
  unfolding encrypt_key
  build_domain noise id now zone backend_id record_name he_dynamic_key = record {
    id = id;
    zone = zone;
    backend_id = backend_id;
    record_name = record_name;
    secret_encrypted = encrypt_key noise he_dynamic_key;
    created_at = now;
  }

  unfoldable pub build_tsig_key :
      (noise id now : ℕ) → (name algorithm secret_b64 : Text) → TsigKey T
  unfolding encrypt_text
  build_tsig_key noise id now name algorithm secret_b64 = record {
    id = id;
    name = name;
    algorithm = algorithm;
    secret_encrypted = encrypt_text noise secret_b64;
    created_at = now;
  }
