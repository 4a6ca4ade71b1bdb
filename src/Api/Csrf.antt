-- ===== src/Api/Csrf.antt =====
-- api/csrf.py: the origin check of `CsrfOriginMiddleware`. `urlsplit` is a parameter: the scheme and
-- the netloc of a URL.
pub mod Check
use astropath_dns_relay.Prelude.{
  ℕ, Bool, true, false, not, ◌&&◌, ◌||◌, String, Option, none, some, List, [], ◌∷◌, ◌++◌, Text,
  codes, contains, text_eq, text_beq, nat_eq, ◌==◌, if◌then◌else◌,
}

abbrev pub safe_methods : List Text
safe_methods = codes "GET" ∷ codes "HEAD" ∷ codes "OPTIONS" ∷ codes "TRACE" ∷ []

-- The parts of a request that the check reads.
pub record Request : Type 0 where
  pub method : Text
  pub path : Text
  pub origin : Option Text
  pub referer : Option Text
  pub x_api_key : Option Text

-- `text.startswith(prefix)`
unfoldable pub starts_with : Text → Text → Bool
starts_with [] s = true
starts_with (c ∷ prefix) [] = false
starts_with (c ∷ prefix) (x ∷ s) = c == x && starts_with prefix s

abbrev pub is_absent : Option Text → Bool
is_absent none = true
is_absent (some _) = false

module _ (urlsplit : Text → Text × Text) where
  -- `_origin_of`
  unfoldable pub origin_of : Text → Option Text
  origin_of url =
      let (scheme, netloc) = urlsplit url in
      if scheme == [] || netloc == [] then none else some (scheme ++ codes "://" ++ netloc)

  -- The header `origin`, or else the origin of a referer that is not empty.
  unfoldable pub claimed_origin : Request → Option Text
  unfolding origin_of
  claimed_origin request = elim request.origin [
    | some origin ↦ some origin
    | none ↦ elim request.referer [
      | none ↦ none
      | some referer ↦ if referer == [] then none else origin_of referer
    ]
  ]

  unfoldable pub same_origin : Option Text → Option Text → Bool
  same_origin none allowed = false
  same_origin (some origin) none = false
  same_origin (some origin) (some allowed) = origin == allowed

  module _ (allowed_origin : Option Text) (protected_prefix : Text) where
    unfoldable pub needs_check : Request → Bool
    unfolding contains starts_with
    needs_check request = elim allowed_origin [
      | none ↦ false
      | some _ ↦
          if contains safe_methods request.method
          then false
          else if not (starts_with protected_prefix request.path)
          then false
          else is_absent request.x_api_key
    ]

    unfoldable pub origin_allowed : Request → Bool
    unfolding claimed_origin same_origin
    origin_allowed request = same_origin (claimed_origin request) allowed_origin

    -- `dispatch`: the status code 403, or what the rest of the application answers
    unfoldable pub csrf_dispatch :
        {S R : Type 0} → (ℕ → R) → (Request → S → R × S) → Request → S → R × S
    unfolding needs_check origin_allowed
    csrf_dispatch error call_next request s =
        if needs_check request && not (origin_allowed request)
        then (error 403, s)
        else call_next request s
