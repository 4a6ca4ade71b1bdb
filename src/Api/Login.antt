-- ===== src/Api/Login.antt =====
-- api/routes_auth.py: the login, the logout and the change of the password, over the rate limiter and
-- the password check. A reply is its status code; `session` is the admin marker of api/session.py.
pub mod Lockout
use astropath_dns_relay.Prelude.{ℕ, Bool, true, false, not, Option, none, some, Text, if◌then◌else◌}
use astropath_dns_relay.Api.Auth.{AuthStore, Argon2, verify_admin_password, set_admin_password}
use astropath_dns_relay.Api.RateLimit.{LoginRateLimiter, is_allowed, record_failure, record_success}

pub record LoginState : Type 0 where
  pub limiter : LoginRateLimiter
  pub store : Option AuthStore
  pub session : Bool

-- The clock readings of `is_allowed` and of `record_failure`, the salt of an upgraded hash, and the
-- seed of the environment.
pub record Moment : Type 0 where
  pub asked : ℕ
  pub failed : ℕ
  pub salt : ℕ
  pub seed : Text

-- `_source`: the client's address, or a stable fallback
unfoldable pub source_of : Text → Option Text → Text
source_of unknown none = unknown
source_of unknown (some host) = host

module _ (argon2 : Argon2) where
  -- `login` after the rate limit
  unfoldable pub settle_login :
      Moment → Text → Bool × Option AuthStore → LoginState → ℕ × LoginState
  settle_login t source (verified, store) s =
      if not verified
      then (401, record s { limiter = record_failure source t.failed s.limiter; store = store })
      else (
        200,
        record s { limiter = record_success source s.limiter; store = store; session = true },
      )

  unfoldable pub login : Moment → Text → Text → LoginState → ℕ × LoginState
  unfolding settle_login
  login t source password s =
      if not (is_allowed source t.asked s.limiter)
      then (429, s)
      else settle_login t source (verify_admin_password argon2 t.seed t.salt password s.store) s

  unfoldable pub logout : LoginState → ℕ × LoginState
  logout s = (200, record s { session = false })

  -- `change_password`, for an authorized caller; 500 where `set_admin_password` raises
  unfoldable pub settle_change : LoginState → Option AuthStore → ℕ × LoginState
  settle_change s none = (500, s)
  settle_change s (some store) = (200, record s { store = some store })

  unfoldable pub change_password : Moment → Text → Text → LoginState → ℕ × LoginState
  unfolding settle_change
  change_password t current new_password s =
      let (verified, store) = verify_admin_password argon2 t.seed t.salt current s.store in
      let s' = record s { store = store } in
      if not verified
      then (403, s')
      else settle_change s' (set_admin_password argon2 t.failed new_password store)
