-- ===== src/Providers/Http/Retry.antt =====
-- The retry loop ends after 1 to `max_attempts` posts, with the first post that need not be repeated.
use astropath_dns_relay.Prelude.{
  ℕ, zero, suc, ◌+◌, ◌<◌, true, false, ◌≡◌, List, [], ◌∷◌, ◌++◌, length, length-append, leb, ltb,
  nat_eq, arith, inl, inr, Bool-cases,
}
use astropath_dns_relay.Providers.Http.{
  Posted, RetryPolicy, Final, finished, backoff, post_loop, post_with_retry, asks_again,
}

module _ {W : Type 0} (post : W → Posted × W) where
  -- The result and the world of the (k + 1)-th post in a row.
  abbrev pub sent : ℕ → W → Posted × W
  sent zero w = post w
  sent (suc k) w = sent k (post w).1

module _ {W : Type 0} (post : W → Posted × W) (p : RetryPolicy) where
  -- The loop stopped at the (k + 1)-th post from `w`, of at most `n`.
  pub record StopsAt (n k : ℕ) (w : W) (sleeps : List ℕ) (out : Final × W × List ℕ) : Type 0 where
    pub within : k < n
    pub result : out.0 ≡ finished (sent post k w).0
    pub world : out.1 ≡ (sent post k w).1
    pub repeated : (j : ℕ) → j < k → asks_again p (sent post j w).0 ≡ true
    pub settled : suc k < n → asks_again p (sent post k w).0 ≡ false
    pub slept : length out.2 ≡ length sleeps + k

  StopsAt-suc :
      (n k : ℕ) (w : W) (sleeps : List ℕ) (b : ℕ) (out : Final × W × List ℕ)
      → asks_again p (post w).0 ≡ true
      → StopsAt n k (post w).1 (sleeps ++ b ∷ []) out
      → StopsAt (suc n) (suc k) w sleeps out
  StopsAt-suc n k w sleeps b out again s = record {
    within = omega (arith, s.within);
    result = s.result;
    world = s.world;
    repeated = repeated;
    settled = λ lt. s.settled (omega arith);
    slept = omega (arith, s.slept, length-append sleeps (b ∷ []));
  }
    where
      repeated : (j : ℕ) → j < suc k → asks_again p (sent post j w).0 ≡ true
      repeated zero lt = again
      repeated (suc j) lt = s.repeated j (omega arith)

  post_loop_lem :
      (fuel attempt : ℕ) (w : W) (sleeps : List ℕ)
      → fuel + attempt ≡ suc p.max_attempts
      → 0 < fuel
      → (k : ℕ) × StopsAt fuel k w sleeps (post_loop post p fuel attempt w sleeps)
  unfolding post_loop
  post_loop_lem zero attempt w sleeps e lt = elim lt [ ]
  post_loop_lem (suc fuel) attempt w sleeps e lt = elim (Bool-cases (asks_again p (post w).0)) [
    | inl again ↦ elim (Bool-cases (leb p.max_attempts attempt)) [
      | inl last ↦ (
        0,
        record {
          within = omega arith;
          result = rw (again, last);
          world = rw (again, last);
          repeated = λ j l. absurd (omega arith);
          settled = λ l. absurd (ground arith);
          slept = rw (again, last) (omega arith);
        },
      )
      | inr more ↦
          let (k, s) =
            post_loop_lem fuel (attempt + 1) (post w).1 (sleeps ++ backoff p attempt ∷ [])
              (omega arith) (ground arith) in
          (suc k, rw (again, more) (StopsAt-suc fuel k w sleeps (backoff p attempt) _ again s))
    ]
    | inr settled ↦ (
      0,
      record {
        within = omega arith;
        result = rw settled;
        world = rw settled;
        repeated = λ j l. absurd (omega arith);
        settled = λ l. settled;
        slept = rw settled (omega arith);
      },
    )
  ]

  -- With at least one attempt allowed, `post_with_retry` ends with the result of its (k + 1)-th
  -- post for some k below `max_attempts`, in the world that this post left: the k posts before it
  -- all got a status of the retry set, it did not unless it was the last one allowed, and there
  -- was one sleep after each of the k.
  pub post_with_retry_stops :
      (w : W)
      → 0 < p.max_attempts
      → (k : ℕ) × StopsAt p.max_attempts k w [] (post_with_retry post p w)
  unfolding post_with_retry
  post_with_retry_stops w lt =
      let few : ltb p.max_attempts 1 ≡ false = ground arith in
      rw few (post_loop_lem p.max_attempts 1 w [] (omega arith) lt)
