-- ===== src/Api/Csrf/Check.antt =====
-- Which requests reach the application behind the origin check.
use astropath_dns_relay.Prelude.{
  ℕ, true, false, ◌≡◌, ◌⊎◌, inl, inr, refl, some, Text, contains, text_eq, text_beq_iff, ◌↔◌,
  Bool-cases, Option-cases, arith,
}
use astropath_dns_relay.Api.Csrf.{
  Request, safe_methods, starts_with, needs_check, claimed_origin, same_origin, origin_allowed,
  csrf_dispatch,
}

module _ (urlsplit : Text → Text × Text) (origin protected_prefix : Text) where
  -- Requests that need no origin: safe methods, other paths, and clients with an API key.
  abbrev pub IsExempt : Request → Type 0
  IsExempt request =
      (contains safe_methods request.method ≡ true)
      ⊎ ((starts_with protected_prefix request.path ≡ false)
          ⊎ ((key : Text) × (request.x_api_key ≡ some key)))

  IsExempt-iff :
      (request : Request)
      → (needs_check urlsplit (some origin) protected_prefix request ≡ false) ↔ IsExempt request
  unfolding needs_check
  IsExempt-iff request = elim (Option-cases request.x_api_key) [
    | inl absent ↦ (λ h. ground arith, λ h. ground arith)
    | inr (key, there) ↦ (λ h. inr (inr (key, there)), λ h. ground arith)
  ]

  origin_allowed_iff :
      (request : Request)
      → (origin_allowed urlsplit (some origin) protected_prefix request ≡ true)
        ↔ (claimed_origin urlsplit request ≡ some origin)
  unfolding origin_allowed same_origin
  origin_allowed_iff request = elim (Option-cases (claimed_origin urlsplit request)) [
    | inl absent ↦ ground arith
    | inr (o, there) ↦ ground (arith, text_beq_iff o origin)
  ]

  pub trusted_or_not :
      (request : Request)
      → let trusted : Type 0 = IsExempt request ⊎ (claimed_origin urlsplit request ≡ some origin) in
        trusted ⊎ (¬ trusted)
  trusted_or_not request =
      let exempt = IsExempt-iff request in
      let allowed = origin_allowed_iff request in
      elim (Bool-cases (needs_check urlsplit (some origin) protected_prefix request)) [
        | inr free ↦ inl (inl (exempt.0 free))
        | inl needed ↦
            elim (Bool-cases (origin_allowed urlsplit (some origin) protected_prefix request)) [
              | inl same ↦ inl (inr (allowed.0 same))
              | inr different ↦
                  inr (λ t. elim t [ inl e ↦ cc (exempt.1 e) | inr o ↦ cc (allowed.1 o) ])
            ]
      ]

  -- With an origin configured, a request passes unchanged if it is exempt (a safe method, a path
  -- outside the protected prefix, or an API key) or if the origin it claims, by its `Origin` header
  -- or else by its referer, is the configured one; every other request is answered 403, and the
  -- application behind does not run.
  pub csrf_dispatch_guards :
      {S R : Type 0} (error : ℕ → R) (call_next : Request → S → R × S) (request : Request) (s : S)
      → let out = csrf_dispatch urlsplit (some origin) protected_prefix error call_next request s in
        (IsExempt request ⊎ (claimed_origin urlsplit request ≡ some origin)
          → out ≡ call_next request s)
        × (¬ (IsExempt request ⊎ (claimed_origin urlsplit request ≡ some origin))
            → out ≡ (error 403, s))
  unfolding csrf_dispatch
  csrf_dispatch_guards error call_next request s =
      let exempt = IsExempt-iff request in
      let allowed = origin_allowed_iff request in
      (
        λ h. elim h [ inl e ↦ rw (exempt.1 e) refl | inr o ↦ rw (allowed.1 o) (ground arith) ],
        λ h. elim (Bool-cases (needs_check urlsplit (some origin) protected_prefix request)) [
          | inr free ↦ absurd (h (inl (exempt.0 free)))
          | inl needed ↦
              elim (Bool-cases (origin_allowed urlsplit (some origin) protected_prefix request)) [
                | inl same ↦ absurd (h (inr (allowed.0 same)))
                | inr different ↦ ground arith
              ]
        ],
      )
