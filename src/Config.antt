-- ===== src/Config.antt =====
-- src/config.rs: the configuration types and their defaults.
pub mod Secrets
pub mod Validate
use calude_proxy.Base.{ℕ, String, Bool, true, false, Option, some, List, ◌*◌}

-- `SecretRef`: an environment variable or a file.
pub data SecretRef : Type 0 where
  env file : String → SecretRef

pub data SecretOrLiteral : Type 0 where
  literal : String → SecretOrLiteral
  secret : SecretRef → SecretOrLiteral

pub data CredentialConfig : Type 0 where
  bearer api_key azure_entra : SecretRef → CredentialConfig

-- `CredentialConfig::secret`.
unfoldable pub credential_secret : CredentialConfig → SecretRef
credential_secret (bearer s) = s
credential_secret (api_key s) = s
credential_secret (azure_entra s) = s

pub data ProviderKind : Type 0 where
  openai_chat azure_chat : ProviderKind

pub record CapabilityProfile : Type 0 where
  pub tokenizer : String
  pub vision : Bool
  pub tools : Bool
  pub parallel_tools : Bool
  pub supports_temperature : Bool
  pub supports_top_p : Bool
  pub supports_stop : Bool
  pub max_output_tokens : ℕ
  pub use_max_completion_tokens : Bool
  pub allow_max_tokens_clamping : Bool
  pub allow_temperature_fallback : Bool
  pub allow_top_p_fallback : Bool
  pub allow_stop_fallback : Bool
  pub allow_parallel_tool_fallback : Bool
  pub allow_structured_tool_results_to_string : Bool

-- `CapabilityProfile::default`.
abbrev pub default_profile : CapabilityProfile
default_profile = record {
  tokenizer = "o200k_base";
  vision = true;
  tools = true;
  parallel_tools = true;
  supports_temperature = true;
  supports_top_p = true;
  supports_stop = true;
  max_output_tokens = 16384;
  use_max_completion_tokens = false;
  allow_max_tokens_clamping = false;
  allow_temperature_fallback = false;
  allow_top_p_fallback = false;
  allow_stop_fallback = false;
  allow_parallel_tool_fallback = false;
  allow_structured_tool_results_to_string = false;
}

pub record ProviderConfig : Type 0 where
  pub id : String
  pub kind : ProviderKind
  pub endpoint : String
  pub credential : CredentialConfig
  pub headers : List (String × SecretOrLiteral)
  pub capability_profile : CapabilityProfile
  pub allow_insecure_http : Bool

pub record ClientConfig : Type 0 where
  pub id : String
  pub key : SecretRef
  pub allowed_routes : List String
  pub requests_per_minute : ℕ
  pub concurrent_requests : ℕ

pub record TargetConfig : Type 0 where
  pub provider : String
  pub model : String
  pub priority : ℕ
  pub weight : ℕ

pub record RouteConfig : Type 0 where
  pub id : String
  pub models : List String
  pub targets : List TargetConfig

-- Socket addresses are kept as their text.
pub record ServerConfig : Type 0 where
  pub bind : String
  pub metrics_bind : Option String
  pub max_body_bytes : ℕ
  pub shutdown_grace_seconds : ℕ
  pub require_anthropic_version : Bool
  pub loose_input_validation : Bool

-- `ServerConfig::default`.
abbrev pub default_server : ServerConfig
default_server = record {
  bind = "0.0.0.0:8082";
  metrics_bind = some "127.0.0.1:9090";
  max_body_bytes = 16 * 1024 * 1024;
  shutdown_grace_seconds = 30;
  require_anthropic_version = true;
  loose_input_validation = false;
}

pub record LimitsConfig : Type 0 where
  pub global_concurrency : ℕ
  pub connect_timeout_ms : ℕ
  pub request_timeout_seconds : ℕ
  pub stream_idle_timeout_seconds : ℕ
  pub max_attempts : ℕ
  pub circuit_failure_threshold : ℕ
  pub circuit_cooldown_seconds : ℕ

-- `LimitsConfig::default`.
abbrev pub default_limits : LimitsConfig
default_limits = record {
  global_concurrency = 512;
  connect_timeout_ms = 5000;
  request_timeout_seconds = 120;
  stream_idle_timeout_seconds = 60;
  max_attempts = 2;
  circuit_failure_threshold = 5;
  circuit_cooldown_seconds = 30;
}

pub record AppConfig : Type 0 where
  pub server : ServerConfig
  pub limits : LimitsConfig
  pub clients : List ClientConfig
  pub providers : List ProviderConfig
  pub routes : List RouteConfig
