-- ===== src/Process/Construction.antt =====
-- `Runtime::new` of src/server.rs with what it builds: `Provider::new` of src/provider.rs, and
-- `Route::compile` and `Router::new` of src/routing.rs. `header_value_valid` is whether
-- `HeaderValue::from_str` accepts a value, `client_error` what goes wrong in building an HTTP client,
-- `glob_error` and `set_error` what the glob compiler says of one pattern and of all.
pub mod Filled
use Prim.Native.Char.{code}
use Prim.Native.String
use calude_proxy.Base.{
  ℕ, String, Bool, not, ◌&&◌, Option, none, some, List, [], ◌∷◌, ◌==◌, ◌⧺◌, is_blank, if◌then◌else◌,
}
use calude_proxy.Error.{ProxyError, ErrorKind, Result, ok, err, new, reject_if, ◌>>=◌, ◌>>◌}
use calude_proxy.Config.{
  AppConfig, LimitsConfig, ProviderConfig, RouteConfig, SecretRef, SecretOrLiteral,
}
use calude_proxy.Config.Validate.{Url, validate, each_valid}
use calude_proxy.Auth.{ClientIdentity, registry}
use calude_proxy.Provider.{Provider}
use calude_proxy.Routing.Resolve.{Route}

-- `str::trim_end_matches('/')`.
unfoldable pub trim_slashes : String → String
trim_slashes String.[] = ""
trim_slashes (String.◌∷◌ c s) =
    let rest = trim_slashes s in if code c == b'/' && is_blank rest then "" else String.◌∷◌ c rest

-- `SecretOrLiteral::resolve`.
unfoldable pub resolve_value : (SecretRef → Result String) → SecretOrLiteral → Result String
resolve_value resolve (SecretOrLiteral.literal value) = ok value
resolve_value resolve (SecretOrLiteral.secret secret) = resolve secret

-- A step that fails with the message, if there is one.
abbrev pub reject_with : Option String → (String → ProxyError) → Result (Unit {0})
reject_with none error = ok tt
reject_with (some message) error = err (error message)

-- The fields that `Provider::new` fills, with a closed circuit.
abbrev pub provider_of : LimitsConfig → ProviderConfig → Provider
provider_of limits config = record {
  id = config.id;
  kind = config.kind;
  endpoint = trim_slashes config.endpoint;
  credential = config.credential;
  capabilities = config.capability_profile;
  failure_threshold = limits.circuit_failure_threshold;
  cooldown = limits.circuit_cooldown_seconds;
}

abbrev pub route_of : RouteConfig → Route
route_of config = record { id = config.id; models = config.models; targets = config.targets }

-- What `Runtime` holds, with the fields of its router. The permits of a new runtime are all free.
pub record Runtime {ℓ} (Digest : Type ℓ) : Type ℓ where
  pub config : AppConfig
  pub clients : List (ClientIdentity Digest)
  pub routes : List Route
  pub providers : List (String × Provider)
  pub max_attempts : ℕ
  pub global_concurrency : ℕ

module _ (header_name_valid header_value_valid : String → Bool)
    (client_error : LimitsConfig → Option String) (resolve : SecretRef → Result String) where
  -- One header of a provider, in the loop of `Provider::new`.
  unfoldable pub check_header : String × SecretOrLiteral → Result (Unit {0})
  check_header (name, given) = do
    reject_if (not (header_name_valid name))
        (new ErrorKind.internal ("invalid header name " ⧺ name))
    value ← resolve_value resolve given
    reject_if (not (header_value_valid value))
        (new ErrorKind.internal "invalid custom header value")

  unfoldable pub new_provider : LimitsConfig → ProviderConfig → Result Provider
  new_provider limits config = do
    each_valid check_header config.headers
    reject_with (client_error limits)
        (λ message. new ErrorKind.internal ("cannot build provider client: " ⧺ message))
    ok (provider_of limits config)

  -- The map of the providers. The ids differ, since `validate` has been passed before.
  unfoldable pub new_providers :
      LimitsConfig → List ProviderConfig → Result (List (String × Provider))
  new_providers limits [] = ok []
  new_providers limits (config ∷ rest) = do
    provider ← new_provider limits config
    others ← new_providers limits rest
    ok ((config.id, provider) ∷ others)

module _ (glob_error : String → Option String) (set_error : List String → Option String) where
  unfoldable pub compile : RouteConfig → Result Route
  compile config = do
    each_valid
        (λ pattern'.
          reject_with (glob_error pattern')
            (λ message. new ErrorKind.internal ("invalid model glob " ⧺ pattern' ⧺ ": " ⧺ message)))
        config.models
    reject_with (set_error config.models)
        (λ message. new ErrorKind.internal ("cannot compile route " ⧺ config.id ⧺ ": " ⧺ message))
    ok (route_of config)

  unfoldable pub compile_all : List RouteConfig → Result (List Route)
  compile_all [] = ok []
  compile_all (config ∷ rest) = do
    route ← compile config
    others ← compile_all rest
    ok (route ∷ others)

module _ {ℓ} {Digest : Type ℓ} (parse_url : String → Option Url) (url_error : String → String)
    (header_name_valid : String → Bool) (sha256 : String → Digest)
    (header_value_valid : String → Bool) (client_error : LimitsConfig → Option String)
    (glob_error : String → Option String) (set_error : List String → Option String)
    (resolve : SecretRef → Result String) where
  unfoldable pub new_runtime : AppConfig → Result (Runtime Digest)
  new_runtime config = do
    accepted ← validate parse_url url_error header_name_valid resolve config
    clients ← registry sha256 resolve config.clients
    providers ←
        new_providers header_name_valid header_value_valid client_error resolve config.limits
          config.providers
    routes ← compile_all glob_error set_error config.routes
    ok record {
      config = config;
      clients = clients;
      routes = routes;
      providers = providers;
      max_attempts = config.limits.max_attempts;
      global_concurrency = config.limits.global_concurrency;
    }
