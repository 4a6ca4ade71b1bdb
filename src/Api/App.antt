-- ===== src/Api/App.antt =====
-- api/app.py: the probes, and the catch-all that serves the single-page application. Paths are lists of
-- segments; resolving a path with its links and looking for a file are the file system's.
pub mod Serving
use astropath_dns_relay.Prelude.{
  ℕ, Bool, true, false, not, ◌&&◌, Option, none, some, List, [], ◌∷◌, Text, codes, contains, nat_eq,
  nat_beq, text_eq, ◌==◌, if◌then◌else◌,
}

-- `/readyz`: the probe of the DNS plane, the population of the cache without one, and the ping of the
-- database, each none where the app has none
pub record Probes : Type 0 where
  pub dns_readiness : Option Bool
  pub is_populated : Option Bool
  pub ping : Option Bool

pub record Ready : Type 0 where
  pub status : ℕ
  pub ready : Bool
  pub dns : Bool
  pub api : Bool

abbrev pub or_false : Option Bool → Bool
or_false none = false
or_false (some b) = b

unfoldable pub readyz : Probes → Ready
readyz p =
    let dns_ready : Bool = elim p.dns_readiness [ none ↦ or_false p.is_populated | some b ↦ b ] in
    let api_ready = or_false p.ping in
    let ready = dns_ready && api_ready in
    record {
      status = if not ready then 503 else 200;
      ready = ready;
      dns = dns_ready;
      api = api_ready;
    }

-- `_dns_ready` of main.py
unfoldable pub dns_ready : (accepting populated : Bool) → Bool
dns_ready accepting populated = accepting && populated

abbrev pub spa_reserved_prefixes : List Text
spa_reserved_prefixes =
    codes "api"
    ∷ codes "docs"
    ∷ codes "redoc"
    ∷ codes "openapi.json"
    ∷ codes "metrics"
    ∷ codes "healthz"
    ∷ codes "readyz"
    ∷ codes "assets"
    ∷ []

-- `full_path.split("/", 1)[0]`
unfoldable pub first_segment : Text → Text
first_segment [] = []
first_segment (c ∷ path) = let rest = first_segment path in if nat_beq c b'/' then [] else c ∷ rest

abbrev pub FilePath : Type 0
FilePath = List Text

-- `candidate.is_relative_to(root)`
unfoldable pub is_relative_to : FilePath → FilePath → Bool
is_relative_to candidate [] = true
is_relative_to [] (r ∷ root) = false
is_relative_to (c ∷ candidate) (r ∷ root) = c == r && is_relative_to candidate root

pub record FileSystem : Type 0 where
  -- `(root / full_path).resolve()`
  pub resolve : FilePath → Text → FilePath
  pub is_file : FilePath → Bool

pub data Served : Type 0 where
  not_found index : Served
  file : FilePath → Served

-- The handler of `/{full_path:path}`, with `root` and its resolved path
unfoldable pub spa : FileSystem → (root root_resolved : FilePath) → Text → Served
unfolding first_segment is_relative_to contains
spa fs root root_resolved full_path =
    let candidate = fs.resolve root full_path in
    if contains spa_reserved_prefixes (first_segment full_path)
    then not_found
    else if full_path == []
    then index
    else if fs.is_file candidate && is_relative_to candidate root_resolved
    then file candidate
    else index

-- `_configure_spa`: the directory that is served; none for an app without the catch-all
unfoldable pub configure_spa : (Text → Bool) → (static_dir spa_dir : Option Text) → Option Text
configure_spa has_index none none = none
configure_spa has_index none (some dir) = if not (has_index dir) then none else some dir
configure_spa has_index (some dir) spa_dir = if not (has_index dir) then none else some dir
