-- ===== src/Tests/Logging.antt =====
-- A record with a secret in an attribute and one in its arguments.
use astropath_dns_relay.Prelude.{
  Bool, false, ◌≡◌, refl, [], ◌∷◌, ◌++◌, Text, codes, text_eq, text_beq, ◌==◌, All,
}
use astropath_dns_relay.Logging.{
  is_secret_key, scrub_value, text, str, Args, one_mapping, tuple, LogRecord, filter,
}
use astropath_dns_relay.Logging.Redaction.{HidesAttribute, HidesArgs, filter-Hides}

abbrev is_name : Text → Bool
is_name name = name == codes "name"

abbrev rendered : Text → Args → Text
rendered msg (one_mapping ((key, text t) ∷ m)) = msg ++ t
rendered msg args = msg

abbrev entry : LogRecord
entry = record {
  msg = codes "auth ";
  args = one_mapping ((str (codes "X-Api-Key"), text (codes "hunter2")) ∷ []);
  attributes = (codes "Session-Secret", text (codes "hunter2")) ∷ [];
}

filter-Hides_example :
    All (HidesAttribute is_name [] rendered) (filter is_name [] rendered entry).attributes
    × ((args : Args) × HidesArgs args
        × ((filter is_name [] rendered entry).msg ≡ scrub_value [] (rendered (codes "auth ") args)))
    × ((filter is_name [] rendered entry).args ≡ tuple [])
filter-Hides_example = filter-Hides is_name [] rendered entry

masked : (filter is_name [] rendered entry).msg ≡ codes "auth <REDACTED>"
unfolding filter text_beq
masked = refl

allowed : is_secret_key (codes "TSIG-Key-Name") ≡ false
unfolding is_secret_key text_beq
allowed = refl
