-- ===== src/Api/Endpoints/Public.antt =====
-- The endpoints that anyone may use: the login and the logout, the probes and the metrics.
use mathlib.Core.Bool.{true≢false}
use astropath_dns_relay.Prelude.{false, ◌≡◌, ◌↔◌, refl, contains, text_eq, text_beq}
use astropath_dns_relay.Api.Csrf.{safe_methods}
use astropath_dns_relay.Api.Endpoints.{
  Endpoint, gets_health, gets_metrics, gets_healthz, logs_out, gets_readyz, logs_in,
  depends_on_admin, endpoint_method,
}

module _ {J : Type 0} where
  abbrev pub IsLogin : Endpoint J → Type 0
  IsLogin (logs_in _ _ _) = Unit
  IsLogin logs_out = Unit
  IsLogin _ = ⊥

  abbrev pub IsPublic : Endpoint J → Type 0
  IsPublic gets_health = Unit
  IsPublic gets_metrics = Unit
  IsPublic gets_healthz = Unit
  IsPublic (gets_readyz _ _) = Unit
  IsPublic endpoint = IsLogin endpoint

  pub IsPublic-iff :
      (endpoint : Endpoint J) → (depends_on_admin endpoint ≡ false) ↔ IsPublic endpoint
  unfolding depends_on_admin
  IsPublic-iff gets_health = (λ _. tt, λ _. refl)
  IsPublic-iff gets_metrics = (λ _. tt, λ _. refl)
  IsPublic-iff gets_healthz = (λ _. tt, λ _. refl)
  IsPublic-iff (gets_readyz _ _) = (λ _. tt, λ _. refl)
  IsPublic-iff (logs_in _ _ _) = (λ _. tt, λ _. refl)
  IsPublic-iff logs_out = (λ _. tt, λ _. refl)
  IsPublic-iff _ = (λ h. absurd (true≢false h), λ h. absurd h)

  -- Those of them with a method that is not safe.
  pub public_unsafe :
      (endpoint : Endpoint J)
      → contains safe_methods (endpoint_method endpoint) ≡ false
      → IsPublic endpoint
      → IsLogin endpoint
  unfolding endpoint_method contains text_beq
  public_unsafe gets_health h p = cc
  public_unsafe gets_metrics h p = cc
  public_unsafe gets_healthz h p = cc
  public_unsafe (gets_readyz _ _) h p = cc
  public_unsafe _ h p = p
