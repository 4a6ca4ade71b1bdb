-- ===== src/Tests/Login.antt =====
-- The login on concrete requests.
use astropath_dns_relay.Prelude.{none, codes, false}
use astropath_dns_relay.Api.Auth.{Argon2}
use astropath_dns_relay.Api.RateLimit.{login_rate_limiter}
use astropath_dns_relay.Api.Login.{LoginState, Moment}

-- No password is right.
abbrev closed : Argon2
closed = record {
  hash_password = λ salt p. p;
  verify_password = λ h p. false;
  password_needs_rehash = λ h. false;
}

abbrev open_state : LoginState
open_state = record {
  limiter = record login_rate_limiter { max_attempts = 1 };
  store = none;
  session = false;
}

abbrev first_try : Moment
first_try = record { asked = 5000; failed = 5000; salt = 1; seed = codes "hash" }

abbrev second_try : Moment
second_try = record { asked = 9000; failed = 9000; salt = 2; seed = codes "hash" }
