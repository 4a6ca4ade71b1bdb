-- ===== src/Api/Login/Lockout.antt =====
-- A burst of failed logins locks its source out, whatever password comes next.
use astropath_dns_relay.Prelude.{text_eq}
