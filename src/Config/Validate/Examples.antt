-- ===== src/Config/Validate/Examples.antt =====
-- A configuration with one provider, one route and one client, in an environment with its secrets.
use calude_proxy.Base.{
  ◌≡◌, refl, String, Bool, true, false, Option, none, some, [], ◌∷◌, All, arith, ◌=?◌,
  if◌then◌else◌, strip_prefix, trim_start, trim_end, is_whitespace,
}
use calude_proxy.Error.{ok, Result}
use calude_proxy.Config.{
  AppConfig, ProviderKind, CredentialConfig, SecretRef, ProviderConfig, SecretOrLiteral,
  default_limits, default_profile, credential_secret,
}
use calude_proxy.Config.Secrets.{read_secret, resolve_secret}
use calude_proxy.Config.Validate.{
  Url, validate, unique_id, eq_ignore_ascii_case, ascii_lower, each_unique, each_valid,
  check_target, check_route, check_allowed, check_client, validate_header_name, check_provider,
}
use calude_proxy.Config.Validate.Guarantees.{IsValid, validate-IsValid}
use calude_proxy.Domain.{NormalizedRequest}
use calude_proxy.Provider.{Provider}
use calude_proxy.Routing.Candidates.Configured.{IsServed, validate-IsServed}

abbrev pub environment : String → Option String
environment name =
    if name =? "CI_KEY"
    then some "0123456789abcdef01234567"
    else if name =? "KEY"
    then some " secret\n"
    else none

abbrev pub no_files : String → Option String
no_files path = none

abbrev pub unreadable : String → String
unreadable path = "not found"

abbrev pub secrets : SecretRef → Result String
secrets = resolve_secret environment no_files unreadable

abbrev pub bare_url : String → Option Url
bare_url text = some (record { username = ""; password = none })

abbrev pub any_header : String → Bool
any_header name = true

abbrev pub config : AppConfig
config = record {
  server = record {
    bind = "127.0.0.1:8080";
    metrics_bind = none;
    max_body_bytes = 16777216;
    shutdown_grace_seconds = 30;
    require_anthropic_version = true;
    loose_input_validation = false;
  };
  limits = default_limits;
  clients =
      record {
        id = "ci";
        key = SecretRef.env "CI_KEY";
        allowed_routes = "main" ∷ [];
        requests_per_minute = 60;
        concurrent_requests = 2;
      }
      ∷ [];
  providers =
      record {
        id = "p";
        kind = ProviderKind.openai_chat;
        endpoint = "https://api.example.com/v1";
        credential = CredentialConfig.bearer (SecretRef.env "KEY");
        headers = ("X-Team", SecretOrLiteral.literal "proxy") ∷ [];
        capability_profile = default_profile;
        allow_insecure_http = false;
      }
      ∷ [];
  routes =
      record {
        id = "main";
        models = "claude-*" ∷ [];
        targets = record { provider = "p"; model = "m"; priority = 1; weight = 4 } ∷ [];
      }
      ∷ [];
}

pub accepted : validate bare_url unreadable any_header secrets config ≡ ok tt
unfolding validate unique_id eq_ignore_ascii_case ascii_lower each_unique each_valid check_target
    check_route check_allowed check_client validate_header_name check_provider resolve_secret
    read_secret credential_secret strip_prefix trim_start trim_end is_whitespace
accepted = refl

validate-IsValid_example : IsValid bare_url unreadable any_header secrets config
validate-IsValid_example = validate-IsValid bare_url unreadable any_header secrets config accepted

abbrev built : ProviderConfig → Provider
built p = record {
  id = p.id;
  kind = p.kind;
  endpoint = p.endpoint;
  credential = p.credential;
  capabilities = p.capability_profile;
  failure_threshold = 5;
  cooldown = 30;
}

abbrev request : NormalizedRequest
request = record {
  original_model = "claude-1";
  max_tokens = 10;
  messages = [];
  temperature = none;
  top_p = none;
  stop_sequences = [];
  tools = [];
  tool_choice = none;
  stream = false;
}

validate-IsServed_example :
    All (IsServed built (λ p. ok request) (λ i. i) (λ round total. 0) config) config.routes
validate-IsServed_example =
    validate-IsServed built (λ p. ok request) (λ i. i) (λ round total. 0) config bare_url unreadable
      any_header secrets accepted (λ i. omega arith) (λ round total h. h)
