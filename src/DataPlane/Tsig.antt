-- ===== src/DataPlane/Tsig.antt =====
-- data_plane/tsig.py: the algorithm names, and the keyring. An algorithm stands for the name constant
-- of dnspython; building a `dns.tsig.Key`, which decodes the secret, is a parameter.
pub mod Algorithms
pub mod Keyring
use mathlib.Core.List.{reverse}
use astropath_dns_relay.Prelude.{
  ℕ, Bool, true, false, not, ◌&&◌, ◌||◌, Option, none, some, List, [], ◌∷◌, ◌++◌, Text, String,
  codes, is_space, lower, rstrip, drop, contains, nat_eq, text_eq, ◌==◌, if◌then◌else◌,
}
use astropath_dns_relay.Prelude.Dict.{Dict, lookup, insert}
use astropath_dns_relay.Prelude.Optional.{◌>>=◌}
use astropath_dns_relay.Dns.{DnsName, name_eq}

pub data Algorithm : Type 0 where
  hmac_sha256 hmac_sha384 hmac_sha512 hmac_sha224 hmac_sha1 hmac_md5 : Algorithm

abbrev pub default_algorithm : Text
default_algorithm = codes "hmac-sha256"

abbrev pub supported_algorithms : Dict Text Algorithm
supported_algorithms =
    (codes "hmac-sha256", hmac_sha256)
    ∷ (codes "hmac-sha384", hmac_sha384)
    ∷ (codes "hmac-sha512", hmac_sha512)
    ∷ (codes "hmac-sha224", hmac_sha224)
    ∷ (codes "hmac-sha1", hmac_sha1)
    ∷ (codes "hmac-md5", hmac_md5)
    ∷ []

-- `s.strip()`
unfoldable pub strip_left : Text → Text
unfolding is_space
strip_left [] = []
strip_left (c ∷ s) = let rest = strip_left s in if is_space c then rest else c ∷ s

unfoldable pub strip : Text → Text
unfolding strip_left
strip s = reverse (strip_left (reverse (strip_left s)))

-- `normalized in SUPPORTED_ALGORITHMS`
unfoldable pub is_supported : Text → Bool
unfolding lookup
is_supported normalized = elim (lookup normalized supported_algorithms) [
  | none ↦ false
  | some _ ↦ true
]

unfoldable pub starts_with_hmac : Text → Bool
starts_with_hmac (a ∷ b ∷ c ∷ d ∷ s) = (a ∷ b ∷ c ∷ d ∷ []) == codes "hmac"
starts_with_hmac _ = false

-- The part of `_normalize_algorithm` after the first line.
unfoldable pub add_dash : Text → Text
unfolding is_supported starts_with_hmac contains
add_dash normalized =
    let candidate = codes "hmac-" ++ drop 4 normalized in
    if is_supported normalized
    then normalized
    else if starts_with_hmac normalized && not (contains normalized b'-') && is_supported candidate
    then candidate
    else normalized

unfoldable pub normalize_algorithm : Text → Text
unfolding add_dash strip rstrip lower
normalize_algorithm text = add_dash (lower (rstrip b'.' (strip text)))

-- `algorithm_from_text`: none where it raises `UnknownAlgorithm`
unfoldable pub algorithm_from_text : Text → Option Algorithm
unfolding normalize_algorithm lookup
algorithm_from_text text = lookup (normalize_algorithm text) supported_algorithms

pub record TsigKeySpec : Type 0 where
  pub name : Text
  pub algorithm : Text
  pub secret_b64 : Text

module _ {N K : Type 0} ⦃d : DnsName N⦄ (tsig_key : N → Text → Algorithm → Option K) where
  -- One round of the loop: the name and the key; none where it raises.
  unfoldable pub key_of : TsigKeySpec → Option (N × K)
  unfolding algorithm_from_text
  key_of spec = do
    algorithm ← algorithm_from_text spec.algorithm
    name ← d.from_text spec.name
    key ← tsig_key name spec.secret_b64 algorithm
    some (name, key)

  unfoldable pub add_keys : Dict N K → List TsigKeySpec → Option (Dict N K)
  unfolding key_of insert
  add_keys keyring [] = some keyring
  add_keys keyring (spec ∷ specs) = do
    (name, key) ← key_of spec
    add_keys (insert name key keyring) specs

  unfoldable pub build_keyring : List TsigKeySpec → Option (Dict N K)
  unfolding add_keys
  build_keyring specs = add_keys [] specs
