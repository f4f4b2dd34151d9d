-- ===== src/Provider/Calls/Examples.antt =====
-- A target that cannot be reached.
use calude_proxy.Base.{◌≡◌, refl, ℕ, String, true, false, Option, none, trim_end, trim_start}
use calude_proxy.Error.{Result, ok, err}
use calude_proxy.Json.{Value}
use calude_proxy.Config.{
  default_profile, CredentialConfig, ProviderKind, SecretRef, credential_secret,
}
use calude_proxy.Config.Secrets.{read_secret, resolve_secret}
use calude_proxy.Config.Validate.Examples.{environment, no_files, unreadable}
use calude_proxy.Provider.{Provider}
use calude_proxy.Provider.Adapt.{adapt_request}
use calude_proxy.Provider.Adapt.Identity.{adapt_request_id_iff}
use calude_proxy.Provider.Body.Examples.{
  no_printer, no_error, request, request-Conforms, body_built,
}
use calude_proxy.Provider.Status.{TransportError, classify_transport}
use calude_proxy.Provider.Calls.{
  HttpRequest, Sent, broken_off, apply_auth, transport, send, execute,
}
use calude_proxy.Provider.Calls.Retried.{SentAndRetried, execute-Retried}

abbrev no_json : String → Option Value
no_json text = none

abbrev status_line : ℕ → String
status_line status = "503"

abbrev no_query : String → Option (String × String)
no_query url = none

abbrev no_message : String → String
no_message text = ""

abbrev unreachable : TransportError
unreachable = record { is_connect = true; is_timeout = false; text = "refused" }

abbrev no_network : HttpRequest → Sent
no_network sent = broken_off unreachable

abbrev secrets : SecretRef → Result String
secrets = resolve_secret environment no_files unreadable

abbrev provider : Provider
provider = record {
  id = "p";
  kind = ProviderKind.openai_chat;
  endpoint = "https://api.example.com/v1";
  credential = CredentialConfig.bearer (SecretRef.env "KEY");
  capabilities = default_profile;
  failure_threshold = 5;
  cooldown = 30;
}

request_unchanged : adapt_request no_printer default_profile request ≡ ok request
request_unchanged = (adapt_request_id_iff no_printer default_profile request).1 request-Conforms

execute_fails :
    execute secrets no_network no_json status_line no_query no_printer no_error provider request
      "gpt"
    ≡ err (classify_transport unreachable)
unfolding execute send apply_auth transport resolve_secret read_secret credential_secret trim_end
    trim_start
execute_fails = rw (request_unchanged, body_built) refl

execute-Retried_example :
    SentAndRetried secrets no_network no_json status_line no_query no_printer no_error provider
      request "gpt" false
unfolding classify_transport
execute-Retried_example =
    execute-Retried environment no_files unreadable no_network no_json status_line no_query
      no_printer no_error no_message provider request "gpt" false (classify_transport unreachable)
      refl execute_fails
