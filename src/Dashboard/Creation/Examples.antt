-- ===== src/Dashboard/Creation/Examples.antt =====
-- A client and a provider for empty tables.
use calude_proxy.Base.{◌≡◌, String, false, Option, none, some, []}
use calude_proxy.Config.{
  CapabilityProfile, ProviderConfig, CredentialConfig, ProviderKind, SecretRef, default_profile,
}
use calude_proxy.Auth.Keys.Examples.{client}
use calude_proxy.Dashboard.{DbError}
use calude_proxy.Dashboard.Clients.{create_client}
use calude_proxy.Dashboard.Providers.{create_provider}
use calude_proxy.Dashboard.Creation.{create_refused}

abbrev any_text : DbError → String
any_text e = "NOT NULL constraint failed"

abbrev printed : CapabilityProfile → Option String
printed profile = some "{}"

abbrev no_message : CapabilityProfile → String
no_message profile = ""

abbrev provider : ProviderConfig
provider = record {
  id = "openai";
  kind = ProviderKind.openai_chat;
  endpoint = "https://api.openai.com/v1";
  credential = CredentialConfig.bearer (SecretRef.env "OPENAI_API_KEY");
  headers = [];
  capability_profile = default_profile;
  allow_insecure_http = false;
}

create_refused_example :
    ((create_client any_text none client []).1.success ≡ false)
    × ((create_client any_text none client []).0 ≡ [])
    × ((create_provider any_text printed no_message none provider []).1.success ≡ false)
    × ((create_provider any_text printed no_message none provider []).0 ≡ [])
create_refused_example = create_refused any_text printed no_message none client [] provider []
