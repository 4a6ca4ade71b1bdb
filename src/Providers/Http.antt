-- ===== src/Providers/Http.antt =====
-- providers/_http.py: the status-level retry around an HTTP client that the program only calls.
-- Times are milliseconds; the jitter of each round is an argument.
pub mod Retry
use astropath_dns_relay.Prelude.{
  ℕ, zero, suc, ◌+◌, ◌-◌, ◌*◌, ◌^◌, min, Bool, true, false, not, ◌||◌, String, List, [], ◌∷◌, ◌++◌,
  Text, leb, ltb, contains, nat_eq, if◌then◌else◌,
}

pub record Response : Type 0 where
  pub status_code : ℕ
  pub text : Text

-- `client.post`: a response of any status, or an `httpx.HTTPError` named by its type.
pub data Posted : Type 0 where
  response : Response → Posted
  http_error : String → Posted

abbrev pub retryable_status : List ℕ
retryable_status = 429 ∷ 500 ∷ 502 ∷ 503 ∷ 504 ∷ []

pub record RetryPolicy : Type 0 where
  pub max_attempts : ℕ
  pub base_backoff : ℕ
  pub max_backoff : ℕ
  pub retry_status : List ℕ
  pub jitter : ℕ → ℕ

-- The defaults of the keyword arguments, in milliseconds.
abbrev pub default_policy : (ℕ → ℕ) → RetryPolicy
default_policy jitter = record {
  max_attempts = 3;
  base_backoff = 500;
  max_backoff = 8000;
  retry_status = retryable_status;
  jitter = jitter;
}

-- What the loop ends with; `stopped` is the model's own, for fuel that ran out.
pub data Final : Type 0 where
  value_error : Final
  finished : Posted → Final
  stopped : Final

unfoldable pub backoff : RetryPolicy → ℕ → ℕ
backoff p attempt = min p.max_backoff (p.base_backoff * 2 ^ (attempt - 1)) + p.jitter attempt

-- `response.status_code in retry_status`; an `HTTPError` leaves the loop at once.
abbrev pub asks_again : RetryPolicy → Posted → Bool
asks_again p (response r) = contains p.retry_status r.status_code
asks_again p (http_error e) = false

module _ {W : Type 0} (post : W → Posted × W) (p : RetryPolicy) where
  -- The result, the world after the posts, and the sleeps between them.
  unfoldable pub post_loop : ℕ → ℕ → W → List ℕ → Final × W × List ℕ
  post_loop zero attempt w sleeps = (stopped, w, sleeps)
  post_loop (suc fuel) attempt w sleeps =
      let (r, w') = post w in
      let again = post_loop fuel (attempt + 1) w' (sleeps ++ backoff p attempt ∷ []) in
      if not (asks_again p r) || leb p.max_attempts attempt then (finished r, w', sleeps) else again

  unfoldable pub post_with_retry : W → Final × W × List ℕ
  unfolding post_loop contains backoff
  post_with_retry w =
      if ltb p.max_attempts 1 then (value_error, w, []) else post_loop p.max_attempts 1 w []
