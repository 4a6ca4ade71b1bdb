-- ===== src/Tests/Process.antt =====
-- A start on a small site, and a run of the process in which the DNS plane gives up.
use astropath_dns_relay.Prelude.{
  ℕ, true, false, ◌≡◌, ◌↔◌, refl, none, some, [], ◌∷◌, codes, text_eq, text_beq, ◌==◌,
}
use astropath_dns_relay.Prelude.Result.{ok, err}
use astropath_dns_relay.Startup.{Site, unknown_provider, unreachable, validate_db_startup}
use astropath_dns_relay.Startup.Checks.{IsReady, Verdict}
use astropath_dns_relay.Startup.Ready.{validate_db_startup_iff}
use astropath_dns_relay.Process.{Run, serve, main}
use astropath_dns_relay.Process.Exit.{Disposed, serve-Disposed, ExitCodes, main-ExitCodes}

abbrev site : Site ℕ
site = record {
  spa_dir = none;
  is_dir = λ dir. true;
  answers = true;
  head = some (some (codes "r2"));
  revision = some (some (codes "r2"));
  backends = some (
      record {
        id = 1;
        name = codes "dns";
        type = codes "bind";
        config_encrypted = 0;
        created_at = 0;
        updated_at = 0;
      }
      ∷ []);
  tsig_keys = some [];
  is_registered = λ type. type == codes "hurricane";
}

validate_db_startup_iff_example :
    ((validate_db_startup site ≡ ok tt) ↔ IsReady site) × Verdict site (validate_db_startup site)
validate_db_startup_iff_example = validate_db_startup_iff site

names_the_backend : validate_db_startup site ≡ err (unknown_provider (codes "dns") (codes "bind"))
unfolding validate_db_startup text_beq
names_the_backend = refl

abbrev gave_up : Run
gave_up = record {
  kek = ok tt;
  startup = ok tt;
  owns_client = true;
  wires = true;
  waits = true;
  dns_done = true;
  api_done = false;
  winds_down = true;
  dns_over = true;
  disposes = true;
  closes = true;
}

serve-Disposed_example : Disposed gave_up (serve gave_up).1
serve-Disposed_example = serve-Disposed gave_up refl refl

abbrev down : Run
down = record gave_up { startup = err unreachable }

main-ExitCodes_example : ExitCodes down (main down)
main-ExitCodes_example = main-ExitCodes down refl refl

unhealthy_exit : main gave_up ≡ ok 1
unfolding main serve
unhealthy_exit = refl

refused_exit : main down ≡ ok 2
unfolding main serve
refused_exit = refl
