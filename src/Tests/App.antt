-- ===== src/Tests/App.antt =====
-- The catch-all over a directory with one file, and a path that climbs out of it.
use astropath_dns_relay.Prelude.{
  true, false, ◌≡◌, ◌↔◌, refl, some, none, [], ◌∷◌, codes, text_eq, text_beq, ◌==◌, if◌then◌else◌,
}
use astropath_dns_relay.Api.App.{FilePath, FileSystem, not_found, index, file, spa, readyz}
use astropath_dns_relay.Api.App.Serving.{IsReserved, IsConfined, spa-IsConfined}

abbrev static : FilePath
static = codes "app" ∷ codes "static" ∷ []

abbrev disk : FileSystem
disk = record {
  resolve = λ root path.
      if path == codes "../secret"
      then codes "app" ∷ codes "secret" ∷ []
      else codes "app" ∷ codes "static" ∷ path ∷ [];
  is_file = λ path. true;
}

spa-IsConfined_example :
    ((spa disk static static (codes "../secret") ≡ not_found) ↔ IsReserved (codes "../secret"))
    × IsConfined disk static (spa disk static static (codes "../secret"))
spa-IsConfined_example = spa-IsConfined disk static static (codes "../secret")

climbs : spa disk static static (codes "../secret") ≡ index
unfolding spa text_beq
climbs = refl

serves :
    spa disk static static (codes "robots.txt")
    ≡ file (codes "app" ∷ codes "static" ∷ codes "robots.txt" ∷ [])
unfolding spa text_beq
serves = refl

unknown_route : spa disk static static (codes "api/v1/nothing") ≡ not_found
unfolding spa text_beq
unknown_route = refl

database_down :
    readyz (record { dns_readiness = some true; is_populated = none; ping = some false })
    ≡ record { status = 503; ready = false; dns = true; api = false }
unfolding readyz
database_down = refl
