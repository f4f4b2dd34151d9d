-- ===== src/Config/Validate.antt =====
-- `AppConfig::validate` of src/config.rs. A set of ids is a list of them. `parse_url` stands for
-- reqwest's URL parser and `url_error` for the message of its error; `header_name_valid` is whether
-- `http::HeaderName` accepts a name; `resolve` is `SecretRef::resolve` in the process's environment.
pub mod Entries
pub mod Guarantees
pub mod Examples
use Prim.Native.Char.{code}
use Prim.Native.String
use calude_proxy.Base.{
  ℕ, ◌+◌, String, Bool, true, false, not, ◌&&◌, ◌||◌, Option, none, some, List, [], ◌∷◌, map, any,
  is_empty, is_blank, one_of, byte_len, strip_prefix, ltb, leb, ◌==◌, ◌⧺◌, if◌then◌else◌,
}
use calude_proxy.Error.{ProxyError, ErrorKind, Result, ok, err, new, ok_or, reject_if, ◌>>=◌, ◌>>◌}
use calude_proxy.Config.{
  AppConfig, ClientConfig, LimitsConfig, ProviderConfig, RouteConfig, TargetConfig, SecretRef,
  SecretOrLiteral, credential_secret,
}

-- What is read of a parsed URL.
pub record Url : Type 0 where
  pub username : String
  pub password : Option String

abbrev pub is_given {ℓ} : {A : Type ℓ} → Option A → Bool
is_given none = false
is_given (some a) = true

abbrev pub starts_with : (prefix s : String) → Bool
starts_with prefix s = is_given (strip_prefix prefix s)

-- `unique_id`: the set with the id.
pub unique_id : (ids : List String) (kind id : String) → Result (List String)
unique_id ids kind id = do
  reject_if (is_blank id || one_of id ids)
      (new ErrorKind.internal (kind ⧺ " id is empty or duplicated: " ⧺ id))
  ok (id ∷ ids)

-- `str::eq_ignore_ascii_case`.
pub ascii_lower : ℕ → ℕ
ascii_lower c = if leb 65 c && leb c 90 then c + 32 else c

pub eq_ignore_ascii_case : String → String → Bool
unfolding ascii_lower
eq_ignore_ascii_case String.[] String.[] = true
eq_ignore_ascii_case String.[] (String.◌∷◌ d t) = false
eq_ignore_ascii_case (String.◌∷◌ c s) String.[] = false
eq_ignore_ascii_case (String.◌∷◌ c s) (String.◌∷◌ d t) =
    ascii_lower (code c) == ascii_lower (code d) && eq_ignore_ascii_case s t

abbrev pub forbidden : List String
forbidden =
    "authorization" ∷ "api-key" ∷ "host" ∷ "content-length" ∷ "connection" ∷ "transfer-encoding"
    ∷ []

-- The ids that a target, and a client, may refer to.
abbrev pub provider_ids : AppConfig → List String
provider_ids config = map (λ p. p.id) config.providers

abbrev pub route_ids : AppConfig → List String
route_ids config = map (λ r. r.id) config.routes

-- A `for` with `?` in its body over the ids seen so far.
pub each_unique {ℓ} :
    {A : Type ℓ}
    → (List String → A → Result (List String))
    → List String
    → List A
    → Result (List String)
each_unique body ids [] = ok ids
each_unique body ids (x ∷ rest) = body ids x >>= λ more. each_unique body more rest

-- The same over nothing but the elements.
unfoldable pub each_valid {ℓ} : {A : Type ℓ} → (A → Result (Unit {0})) → List A → Result (Unit {0})
each_valid body [] = ok tt
each_valid body (x ∷ rest) = body x >> each_valid body rest

pub check_target : (providers : List String) → RouteConfig → TargetConfig → Result (Unit {0})
check_target providers route target =
    reject_if (not (one_of target.provider providers) || target.weight == 0)
      (new ErrorKind.internal ("route " ⧺ route.id ⧺ " has an invalid target " ⧺ target.provider))

pub check_route : (providers ids : List String) → RouteConfig → Result (List String)
check_route providers ids route = do
  more ← unique_id ids "route" route.id
  reject_if (is_empty route.models || is_empty route.targets)
      (new ErrorKind.internal ("route " ⧺ route.id ⧺ " needs models and targets"))
  each_valid (check_target providers route) route.targets
  ok more

pub check_allowed : (routes : List String) → ClientConfig → String → Result (Unit {0})
check_allowed routes client route =
    reject_if (not (one_of route routes))
      (new ErrorKind.internal ("client " ⧺ client.id ⧺ " references unknown route " ⧺ route))

module _ (resolve : SecretRef → Result String) where
  pub check_client : (routes ids : List String) → ClientConfig → Result (List String)
  check_client routes ids client = do
    more ← unique_id ids "client" client.id
    key ← resolve client.key
    reject_if (ltb (byte_len key) 24)
        (new ErrorKind.internal ("client " ⧺ client.id ⧺ " key must be at least 24 bytes"))
    reject_if (client.concurrent_requests == 0 || client.requests_per_minute == 0)
        (new ErrorKind.internal ("client " ⧺ client.id ⧺ " limits must be non-zero"))
    each_valid (check_allowed routes client) client.allowed_routes
    ok more

module _ (header_name_valid : String → Bool) where
  pub validate_header_name : String → Result (Unit {0})
  validate_header_name name = do
    reject_if (any (eq_ignore_ascii_case name) forbidden)
        (new ErrorKind.internal ("custom header " ⧺ name ⧺ " is forbidden"))
    reject_if (not (header_name_valid name))
        (new ErrorKind.internal ("invalid custom header name " ⧺ name))

module _ (parse_url : String → Option Url) (url_error : String → String)
    (header_name_valid : String → Bool) (resolve : SecretRef → Result String) where
  pub check_provider : (ids : List String) → ProviderConfig → Result (List String)
  check_provider ids provider = do
    more ← unique_id ids "provider" provider.id
    url ← ok_or (parse_url provider.endpoint) (
        new ErrorKind.internal
          ("provider " ⧺ provider.id ⧺ " has invalid endpoint: " ⧺ url_error provider.endpoint))
    reject_if (not (is_blank url.username) || is_given url.password) (
        new ErrorKind.internal
          ("provider " ⧺ provider.id ⧺ " endpoint must not contain credentials"))
    reject_if
        (not (
          starts_with "https://" provider.endpoint
          || provider.allow_insecure_http && starts_with "http://" provider.endpoint))
        (new ErrorKind.internal
          ("provider " ⧺ provider.id ⧺ " must use HTTPS or explicitly allow insecure HTTP"))
    secret ← resolve (credential_secret provider.credential)
    each_valid (λ header. validate_header_name header_name_valid header.0) provider.headers
    ok more

  pub validate : AppConfig → Result (Unit {0})
  validate config = do
    reject_if (is_empty config.clients || is_empty config.providers || is_empty config.routes)
        (new ErrorKind.internal "clients, providers, and routes must not be empty")
    reject_if (config.limits.global_concurrency == 0 || config.limits.max_attempts == 0)
        (new ErrorKind.internal "concurrency and max_attempts must be greater than zero")
    seen_providers ← each_unique check_provider [] config.providers
    seen_routes ← each_unique (check_route (provider_ids config)) [] config.routes
    seen_clients ← each_unique (check_client resolve (route_ids config)) [] config.clients
    ok tt
