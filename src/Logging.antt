-- ===== src/Logging.antt =====
-- logging_config.py: the redaction of log records. The names of the standard attributes of a record, the
-- rendering of a message with its arguments and the substitutions of `re` are parameters; a value that
-- is not a text is opaque.
pub mod Redaction
use astropath_dns_relay.Prelude.{
  ℕ, Bool, true, false, not, ◌&&◌, ◌||◌, List, [], ◌∷◌, map, Text, codes, lower, contains, nat_eq,
  nat_beq, text_eq, ◌==◌, foldl, if◌then◌else◌,
}

abbrev pub redacted : Text
redacted = codes "<REDACTED>"

abbrev pub deny_field_fragments : List Text
deny_field_fragments =
    codes "password"
    ∷ codes "passwd"
    ∷ codes "secret"
    ∷ codes "token"
    ∷ codes "credential"
    ∷ codes "kek"
    ∷ codes "dsn"
    ∷ codes "authorization"
    ∷ codes "api_key"
    ∷ codes "apikey"
    ∷ codes "x_api_key"
    ∷ codes "cookie"
    ∷ codes "he_dynamic_key"
    ∷ codes "dynamic_key"
    ∷ codes "private_key"
    ∷ codes "tsig_secret"
    ∷ codes "session_secret"
    ∷ codes "password_hash"
    ∷ codes "bearer"
    ∷ codes "passphrase"
    ∷ []

abbrev pub allow_fields : List Text
allow_fields =
    codes "key_name"
    ∷ codes "tsig_key_name"
    ∷ codes "key_id"
    ∷ codes "tsig_key_id"
    ∷ codes "token_count"
    ∷ codes "token_type"
    ∷ codes "public_key"
    ∷ []

-- `name.lower().replace("-", "_")`
unfoldable pub underscore : ℕ → ℕ
underscore c = if c == b'-' then b'_' else c

unfoldable pub fold : Text → Text
unfolding lower underscore
fold name = map underscore (lower name)

unfoldable pub begins_with : Text → Text → Bool
begins_with [] text = true
begins_with (c ∷ fragment) [] = false
begins_with (c ∷ fragment) (d ∷ text) = nat_beq c d && begins_with fragment text

-- `fragment in text`
unfoldable pub is_within : Text → Text → Bool
unfolding begins_with
is_within fragment [] = begins_with fragment []
is_within fragment (c ∷ text) = begins_with fragment (c ∷ text) || is_within fragment text

unfoldable pub any_within : List Text → Text → Bool
unfolding is_within
any_within [] text = false
any_within (fragment ∷ fragments) text = is_within fragment text || any_within fragments text

unfoldable pub is_secret_key : Text → Bool
unfolding fold any_within contains
is_secret_key name =
    let normalized = fold name in
    if contains allow_fields normalized then false else any_within deny_field_fragments normalized

-- The pattern substitutions, in order.
unfoldable pub scrub_value : List (Text → Text) → Text → Text
scrub_value patterns text = foldl (λ t substitute. substitute t) text patterns

pub data Value : Type 0 where
  text : Text → Value
  opaque : ℕ → Value

pub data Key : Type 0 where
  str : Text → Key
  other_key : ℕ → Key

abbrev pub Mapping : Type 0
Mapping = List (Key × Value)

pub data Item : Type 0 where
  mapping : Mapping → Item
  single : Value → Item

-- `record.args`: a mapping, a tuple, or anything else
pub data Args : Type 0 where
  one_mapping : Mapping → Args
  tuple : List Item → Args
  other_args : ℕ → Args

-- The message with its arguments, and the attributes of `__dict__`.
pub record LogRecord : Type 0 where
  pub msg : Text
  pub args : Args
  pub attributes : List (Text × Value)

unfoldable pub redact_value : Key → Value → Value
unfolding is_secret_key
redact_value (str name) value = if is_secret_key name then text redacted else value
redact_value (other_key k) value = value

unfoldable pub redact_mapping : Mapping → Mapping
unfolding redact_value
redact_mapping [] = []
redact_mapping ((key, value) ∷ m) = (key, redact_value key value) ∷ redact_mapping m

unfoldable pub redact_item : Item → Item
unfolding redact_mapping
redact_item (mapping m) = mapping (redact_mapping m)
redact_item (single value) = single value

unfoldable pub redact_args : Args → Args
unfolding redact_mapping redact_item
redact_args (one_mapping m) = one_mapping (redact_mapping m)
redact_args (tuple items) = tuple (map redact_item items)
redact_args (other_args a) = other_args a

module _ (reserved : Text → Bool) (patterns : List (Text → Text))
    (render : Text → Args → Text) where
  -- Step (a) on one attribute.
  unfoldable pub redact_attribute : Text → Value → Value
  unfolding is_secret_key scrub_value
  redact_attribute name (text value) =
      if reserved name
      then text value
      else if is_secret_key name
      then text redacted
      else text (scrub_value patterns value)
  redact_attribute name (opaque value) =
      if reserved name
      then opaque value
      else if is_secret_key name
      then text redacted
      else opaque value

  unfoldable pub redact_attributes : List (Text × Value) → List (Text × Value)
  unfolding redact_attribute
  redact_attributes [] = []
  redact_attributes ((name, value) ∷ attributes) =
      (name, redact_attribute name value) ∷ redact_attributes attributes

  -- `RedactionFilter.filter`
  unfoldable pub filter : LogRecord → LogRecord
  unfolding redact_attributes redact_args scrub_value
  filter entry = record {
    msg = scrub_value patterns (render entry.msg (redact_args entry.args));
    args = tuple [];
    attributes = redact_attributes entry.attributes;
  }
