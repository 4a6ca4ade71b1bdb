-- ===== src/Providers/Hurricane.antt =====
-- providers/hurricane.py: the Hurricane Electric provider, one value per record and no delete.
pub mod Records
pub mod Words
pub mod Update
use astropath_dns_relay.Prelude.{
  is_space, ℕ, Bool, true, false, not, ◌&&◌, ◌||◌, ◌≤◌, String, Option, none, some, List, [], ◌∷◌,
  ◌++◌, Text, codes, lower, rstrip, leb, length, contains, text_eq, nat_eq, ◌==◌, foldl,
  if◌then◌else◌,
}
use astropath_dns_relay.Prelude.Dict.{Dict, lookup, insert}
use astropath_dns_relay.Providers.Base.{
  Message, lit, quoted, unquoted, shown, named, Reply, done, provider_error, crashed, Provider,
}
use astropath_dns_relay.Providers.Http.{
  Response, Posted, response, http_error, RetryPolicy, Final, finished, value_error, stopped,
  post_with_retry,
}

abbrev pub ok_responses : List Text
ok_responses = codes "good" ∷ codes "nochg" ∷ []

abbrev pub hard_error_responses : List Text
hard_error_responses =
    codes "badauth" ∷ codes "nohost" ∷ codes "!yours" ∷ codes "notfqdn" ∷ codes "abuse" ∷ []

abbrev pub cleanup_benign_responses : List Text
cleanup_benign_responses = codes "noipv4" ∷ codes "noipv6" ∷ []

pub word : Text → Text
word [] = []
word (c ∷ s) = if is_space c then [] else c ∷ word s

-- `text.split()[0] if text.strip() else ""`
unfoldable pub first_word : Text → Text
unfolding is_space word
first_word [] = []
first_word (c ∷ s) = if is_space c then first_word s else word (c ∷ s)

-- `_normalize_record`
unfoldable pub normalize_record : Text → Text
unfolding rstrip lower
normalize_record record_name = lower (rstrip b'.' record_name)

-- `self._record_keys` and `self._cleanup_placeholder`
pub record Hurricane : Type 0 where
  pub record_keys : Dict Text Text
  pub cleanup_placeholder : Text

unfoldable pub register_record_key : Text → Text → Hurricane → Hurricane
unfolding normalize_record insert
register_record_key record_name dynamic_key h = record h {
  record_keys = insert (normalize_record record_name) dynamic_key h.record_keys;
}

-- The form that is posted to `ENDPOINT`.
pub record Form : Type 0 where
  pub hostname : Text
  pub password : Text
  pub txt : Text

-- The dict comprehension of `__init__`, in the order of the mapping.
abbrev pub add_key : Hurricane → Text × Text → Hurricane
add_key h (name, key) = register_record_key name key h

unfoldable pub hurricane_init : Dict Text Text → Text → Hurricane
hurricane_init keys placeholder =
    foldl add_key (record { record_keys = []; cleanup_placeholder = placeholder }) keys

unfoldable pub key_for : Hurricane → Text → Option Text
unfolding lookup normalize_record
key_for h record_name = lookup (normalize_record record_name) h.record_keys

-- What `_update` makes of a response with the status 200.
unfoldable pub judge_status : Bool → Text → Text → Reply
unfolding contains
judge_status cleanup hostname status =
    if contains ok_responses status
    then done
    else if cleanup && contains cleanup_benign_responses status
    then done
    else if contains hard_error_responses status
    then provider_error
        (lit "HE rejected update for " ∷ quoted hostname ∷ lit ": " ∷ unquoted status ∷ [])
    else provider_error
        (lit "HE unexpected response for " ∷ quoted hostname ∷ lit ": " ∷ quoted status ∷ [])

-- `judge` is the rest of `_update` after the request.
unfoldable pub judge : Bool → Text → Final → Reply
unfolding judge_status first_word lower
judge cleanup hostname (finished (response r)) =
    if r.status_code == 200
    then judge_status cleanup hostname (lower (first_word r.text))
    else provider_error
        (lit "HE returned HTTP " ∷ shown r.status_code ∷ lit " for " ∷ quoted hostname ∷ [])
judge cleanup hostname (finished (http_error kind)) =
    provider_error (lit "HE request failed for " ∷ quoted hostname ∷ lit ": " ∷ named kind ∷ [])
judge cleanup hostname value_error = crashed
judge cleanup hostname stopped = crashed

-- The error of `present` for a number of values other than one.
abbrev pub too_many : ℕ → Reply
too_many count = provider_error (
    lit "hurricane supports exactly one TXT value per record (got "
    ∷ shown count
    ∷ lit "); supports_multivalue is False"
    ∷ [])

module _ {W : Type 0} (post : Form → W → Posted × W) (policy : RetryPolicy) where
  unfoldable pub send : Bool → Text → Form → W → Reply × W
  send cleanup hostname form w =
      let (final, w', _) = post_with_retry (post form) policy w in
      (judge cleanup hostname final, w')

  -- `_update` from the lookup of the key on.
  unfoldable pub update_with : Bool → Text → Text → Option Text → W → Reply × W
  unfolding send
  update_with cleanup record_name txt_value none w =
      (provider_error (lit "no HE dynamic key configured for record " ∷ quoted record_name ∷ []), w)
  update_with cleanup record_name txt_value (some password) w =
      let hostname = normalize_record record_name in
      send cleanup hostname (record { hostname = hostname; password = password; txt = txt_value }) w

  unfoldable pub update : Hurricane → Text → Text → Bool → W → Reply × W
  unfolding update_with key_for
  update h record_name txt_value cleanup w =
      update_with cleanup record_name txt_value (key_for h record_name) w

  unfoldable pub present : Hurricane → Text → Text → List Text → W → Reply × W
  present h zone record_name [] w = (too_many 0, w)
  present h zone record_name (v ∷ []) w = update h record_name v false w
  present h zone record_name (v ∷ v' ∷ values) w = (too_many (length (v ∷ v' ∷ values)), w)

  unfoldable pub cleanup : Hurricane → Text → Text → List Text → W → Reply × W
  cleanup h zone record_name values w = update h record_name h.cleanup_placeholder true w

  unfoldable pub validate : Hurricane → W → Reply × W
  validate h w = elim h.record_keys [
    | [] ↦ (provider_error (lit "hurricane provider has no per-record dynamic keys" ∷ []), w)
    | _ ∷ _ ↦ (done, w)
  ]

  -- The instance as the dispatcher sees it.
  abbrev pub hurricane_provider : Hurricane → Provider W
  hurricane_provider h = record {
    kind = "hurricane";
    supports_multivalue = false;
    present = present h;
    cleanup = cleanup h;
    validate = validate h;
  }
