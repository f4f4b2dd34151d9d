-- ===== src/Process/Examples.antt =====
-- A start, and a SIGHUP at which the file cannot be read.
use calude_proxy.Base.{
  ℕ, ◌≡◌, refl, String, false, Option, none, some, List, [], ◌∷◌, length, arith,
}
use calude_proxy.Error.{Result, ok}
use calude_proxy.Domain.{NormalizedRequest}
use calude_proxy.Config.{
  AppConfig, LimitsConfig, CredentialConfig, ProviderKind, SecretRef, default_limits,
  default_profile,
}
use calude_proxy.Config.Validate.{each_valid}
use calude_proxy.Config.Validate.Examples.{
  unreadable, secrets, bare_url, any_header, config, accepted,
}
use calude_proxy.Auth.{ClientIdentity, registry}
use calude_proxy.Auth.Configured.{validate-registry}
use calude_proxy.Auth.Keys.Examples.{plain}
use calude_proxy.Provider.{Provider}
use calude_proxy.Provider.Body.Examples.{request}
use calude_proxy.Process.{Surroundings, load, load_runtime, reloaded}
use calude_proxy.Process.Construction.{
  Runtime, provider_of, resolve_value, check_header, new_provider, new_providers, compile,
  compile_all, new_runtime,
}
use calude_proxy.Process.Reloaded.{InService, reloaded-InService}

abbrev no_client_error : LimitsConfig → Option String
no_client_error limits = none

abbrev no_glob_error : String → Option String
no_glob_error pattern' = none

abbrev no_set_error : List String → Option String
no_set_error patterns = none

abbrev one_file : String → Option AppConfig
one_file text = some config

abbrev start : Surroundings
start = record { source = some "clients: []"; read_error = ""; resolve = secrets }

abbrev deleted : Surroundings
deleted = record { source = none; read_error = "no such file"; resolve = secrets }

abbrev entered :
    (clients : List (ClientIdentity String)) × (registry plain secrets config.clients ≡ ok clients)
    × (length clients ≡ length config.clients)
entered = validate-registry plain secrets bare_url unreadable any_header config accepted

abbrev first : Runtime String
first = record {
  config = config;
  clients = entered.0;
  routes =
      record {
        id = "main";
        models = "claude-*" ∷ [];
        targets = record { provider = "p"; model = "m"; priority = 1; weight = 4 } ∷ [];
      }
      ∷ [];
  providers =
      (
        "p",
        provider_of default_limits (record {
          id = "p";
          kind = ProviderKind.openai_chat;
          endpoint = "https://api.example.com/v1";
          credential = CredentialConfig.bearer (SecretRef.env "KEY");
          headers = [];
          capability_profile = default_profile;
          allow_insecure_http = false;
        }),
      )
      ∷ [];
  max_attempts = default_limits.max_attempts;
  global_concurrency = default_limits.global_concurrency;
}

started :
    load_runtime bare_url unreadable any_header plain any_header no_client_error no_glob_error
      no_set_error one_file unreadable "proxy.yaml" start
    ≡ ok first
unfolding load load_runtime new_runtime new_providers new_provider check_header resolve_value
    compile compile_all each_valid
started = rw (accepted, accepted, entered.1) refl

abbrev ticking : ℕ → ℕ
ticking i = i

abbrev zero_draw : ℕ → ℕ → ℕ
zero_draw round total = 0

abbrev any_request : Provider → Result NormalizedRequest
any_request p = ok request

reloaded-InService_example :
    InService bare_url unreadable any_header plain any_header no_client_error no_glob_error
      no_set_error one_file unreadable "proxy.yaml" any_request ticking zero_draw first
      (deleted ∷ start ∷ [])
      (reloaded bare_url unreadable any_header plain any_header no_client_error no_glob_error
        no_set_error one_file unreadable "proxy.yaml" first
        (deleted ∷ []))
reloaded-InService_example =
    reloaded-InService bare_url unreadable any_header plain any_header no_client_error no_glob_error
      no_set_error one_file unreadable "proxy.yaml" any_request ticking zero_draw (λ i. omega arith)
      (λ round total h. h) start first (deleted ∷ []) started
