-- ===== src/Process.antt =====
-- How src/main.rs brings a configuration into service: `AppConfig::load` and `load_from_value` of
-- src/config.rs, the loop of `spawn_reload`, and `ready` of src/server.rs, which reports what is in
-- service. `from_yaml` and `from_json` stand for serde with the messages of its errors. Metrics, logs
-- and listeners are left out.
pub mod Construction
pub mod Settings
pub mod Reloaded
pub mod Examples
use calude_proxy.Base.{
  String, Bool, true, false, not, ◌&&◌, Option, none, some, List, [], ◌∷◌, length, ◌==◌, ◌=?◌, ◌⧺◌,
  if◌then◌else◌,
}
use calude_proxy.Error.{ErrorKind, Result, ok, err, new, ok_or, ◌>>=◌}
use calude_proxy.Json.{Value, obj, string, json_number}
use calude_proxy.Config.{AppConfig, LimitsConfig, ServerConfig, SecretRef}
use calude_proxy.Config.Validate.{Url, validate}
use calude_proxy.Process.Construction.{Runtime, new_runtime}

-- The file of the configuration and the secrets at one instant.
pub record Surroundings : Type 0 where
  pub source : Option String
  pub read_error : String
  pub resolve : SecretRef → Result String

-- The derived `==` of `ServerConfig`.
abbrev pub same_flag : Bool → Bool → Bool
same_flag true b = b
same_flag false b = not b

abbrev pub same_bind : Option String → Option String → Bool
same_bind none none = true
same_bind (some a) (some b) = a =? b
same_bind none (some b) = false
same_bind (some a) none = false

unfoldable pub same_server : ServerConfig → ServerConfig → Bool
same_server a b =
    (a.bind =? b.bind)
    && same_bind a.metrics_bind b.metrics_bind
    && a.max_body_bytes == b.max_body_bytes
    && a.shutdown_grace_seconds == b.shutdown_grace_seconds
    && same_flag a.require_anthropic_version b.require_anthropic_version
    && same_flag a.loose_input_validation b.loose_input_validation

module _ (parse_url : String → Option Url) (url_error : String → String)
    (header_name_valid : String → Bool) where
  unfoldable pub load :
      (from_yaml : String → Option AppConfig) (yaml_error : String → String) (path : String)
      → Surroundings
      → Result AppConfig
  load from_yaml yaml_error path now = do
    source ←
        ok_or now.source
          (new ErrorKind.internal ("cannot read config " ⧺ path ⧺ ": " ⧺ now.read_error))
    config ←
        ok_or (from_yaml source)
          (new ErrorKind.internal ("invalid config " ⧺ path ⧺ ": " ⧺ yaml_error source))
    accepted ← validate parse_url url_error header_name_valid now.resolve config
    ok config

  unfoldable pub load_from_value :
      (from_json : Value → Option AppConfig) (json_error : Value → String)
      (resolve : SecretRef → Result String)
      → Value
      → Result AppConfig
  load_from_value from_json json_error resolve value = do
    config ←
        ok_or (from_json value) (new ErrorKind.internal ("invalid config: " ⧺ json_error value))
    accepted ← validate parse_url url_error header_name_valid resolve config
    ok config

  module _ {ℓ} {Digest : Type ℓ} (sha256 : String → Digest) (header_value_valid : String → Bool)
      (client_error : LimitsConfig → Option String) (glob_error : String → Option String)
      (set_error : List String → Option String) (from_yaml : String → Option AppConfig)
      (yaml_error : String → String) (path : String) where
    -- `AppConfig::load(&path).and_then(Runtime::new)`.
    unfoldable pub load_runtime : Surroundings → Result (Runtime Digest)
    load_runtime now =
        load from_yaml yaml_error path now
        >>= new_runtime parse_url url_error header_name_valid sha256 header_value_valid client_error
            glob_error set_error now.resolve

    -- The arms of the `match`: the runtime that is in service after it.
    unfoldable pub after_load : Runtime Digest → Result (Runtime Digest) → Runtime Digest
    after_load current (err error) = current
    after_load current (ok runtime) =
        if same_server runtime.config.server current.config.server then runtime else current

    -- The loop of `spawn_reload`, by what stands around the process at each SIGHUP; the first signal
    -- stands last.
    unfoldable pub reloaded : Runtime Digest → List Surroundings → Runtime Digest
    reloaded runtime [] = runtime
    reloaded runtime (now ∷ earlier) = after_load (reloaded runtime earlier) (load_runtime now)

-- The body of `ready`.
unfoldable pub ready {ℓ} : {Digest : Type ℓ} → Runtime Digest → Value
ready runtime = obj (
    ("status", string "ready")
    ∷ ("routes", json_number (length runtime.config.routes))
    ∷ ("providers", json_number (length runtime.config.providers))
    ∷ [])
