-- ===== src/Providers/Base.antt =====
-- providers/base.py: the contract of a provider and the registry of provider classes.
use astropath_dns_relay.Prelude.{
  ℕ, Bool, String, Option, none, some, List, Text, not, ◌==◌, string_eq, if◌then◌else◌,
}
use astropath_dns_relay.Prelude.Dict.{Dict, lookup, insert}

-- The parts of an f-string: literal text, `{x!r}` and `{x}` of a text, a number, a name of a
-- type or action.
pub data Part : Type 0 where
  lit : String → Part
  quoted : Text → Part
  unquoted : Text → Part
  shown : ℕ → Part
  named : String → Part

abbrev pub Message : Type 0
Message = List Part

-- How a provider call ends: it returns, raises `ProviderError`, or raises anything else.
pub data Reply : Type 0 where
  done : Reply
  provider_error : Message → Reply
  crashed : Reply

-- `class Provider`, an instance of it, with `W` the state of the world that it writes to.
pub record Provider (W : Type 0) : Type 0 where
  pub kind : String
  pub supports_multivalue : Bool
  pub present : Text → Text → List Text → W → Reply × W
  pub cleanup : Text → Text → List Text → W → Reply × W
  pub validate : W → Reply × W

-- A provider class is known by its name; two classes are one if their names are.
abbrev pub Registry : Type 0
Registry = Dict String String

-- `register`: none where it raises ValueError
pub register : Registry → String → String → Option Registry
register reg key cls = elim (lookup key reg) [
  | none ↦ some (insert key cls reg)
  | some old ↦ if not (old == cls) then none else some (insert key cls reg)
]

-- `get_provider`: none where it raises `UnknownProvider`
unfoldable pub get_provider : Registry → String → Option String
unfolding lookup
get_provider reg provider_type = lookup provider_type reg
