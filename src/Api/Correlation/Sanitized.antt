-- ===== src/Api/Correlation/Sanitized.antt =====
-- What a client can put into the log stream by its headers.
use astropath_dns_relay.Prelude.{
  true, ◌≡◌, ◌≢◌, ◌≤◌, inl, inr, List, [], ◌∷◌, Text, keep, contains, text_eq, text_beq_iff, ◌==◌,
  All, All-take, length, length-take-le, arith, Bool-cases,
}
use astropath_dns_relay.Api.Correlation.{
  inbound_headers, is_safe, sanitize, incoming_correlation_id,
}

-- An id of safe characters, not empty and not too long.
pub record IsSanitized (id : Text) : Type 0 where
  pub safe : All (λ c. is_safe c ≡ true) id
  pub short : length id ≤ 64
  pub present : id ≢ []

keep-All : (s : Text) → All (λ c. is_safe c ≡ true) (keep is_safe s)
unfolding keep
keep-All [] = tt
keep-All (c ∷ s) = elim (Bool-cases (is_safe c)) [
  | inl good ↦ rw good (good, keep-All s)
  | inr bad ↦ rw bad (keep-All s)
]

sanitize-IsSanitized : (s : Text) → sanitize s ≢ [] → IsSanitized (sanitize s)
unfolding sanitize
sanitize-IsSanitized s ne = record {
  safe = All-take (λ c. is_safe c ≡ true) 64 (keep is_safe s) (keep-All s);
  short = length-take-le 64 (keep is_safe s);
  present = ne;
}

-- Whatever headers a client sends, the correlation id is of letters, digits, dots, underscores and
-- dashes only, has at least one and at most 64 of them, provided that the fresh id has.
pub incoming_correlation_id-IsSanitized :
    (fresh : Text) (headers : List (Text × Text))
    → IsSanitized fresh
    → IsSanitized (incoming_correlation_id fresh headers)
unfolding incoming_correlation_id
incoming_correlation_id-IsSanitized fresh [] ok = ok
incoming_correlation_id-IsSanitized fresh ((name, value) ∷ headers) ok =
    let rest = incoming_correlation_id-IsSanitized fresh headers ok in
    elim (Bool-cases (contains inbound_headers name)) [
      | inr other ↦ rw other rest
      | inl named ↦ elim (Bool-cases (sanitize value == [])) [
        | inl empty ↦ rw (named, empty) rest
        | inr full ↦
            rw (named, full)
              (sanitize-IsSanitized value (ground (arith, text_beq_iff (sanitize value) [])))
      ]
    ]
