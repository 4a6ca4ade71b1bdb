-- ===== src/Api/Pipeline/Guards.antt =====
-- What the guards let through, and that nothing else changes what the management plane keeps.
use astropath_dns_relay.Prelude.{◌≡◌, ◌⊎◌, some, Text, text_eq}
use astropath_dns_relay.Api.Csrf.{claimed_origin}
use astropath_dns_relay.Api.Csrf.Check.{IsExempt}
use astropath_dns_relay.Api.Endpoints.{api_v1_prefix}
use astropath_dns_relay.Api.Pipeline.{WebRequest, Services, head_of}

module _ {S T J : Type 0} (services : Services S T J) (origin : Text) where
  abbrev pub IsTrusted : WebRequest J → Type 0
  IsTrusted call =
      IsExempt services.urlsplit origin api_v1_prefix (head_of services.str call)
      ⊎ (claimed_origin services.urlsplit (head_of services.str call) ≡ some origin)
