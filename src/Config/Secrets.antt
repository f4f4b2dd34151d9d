-- ===== src/Config/Secrets.antt =====
-- `SecretRef::resolve` of src/config.rs. `env_var` and `read_to_string` stand for the environment and
-- the files of the process, and `io_error` for the message of a file that cannot be read.
pub mod Failures
use calude_proxy.Base.{String, Option, is_blank, trim, ◌⧺◌}
use calude_proxy.Error.{ErrorKind, Result, ok, new, ok_or, reject_if, ◌>>=◌, ◌>>◌}
use calude_proxy.Config.{SecretRef}

module _ (env_var read_to_string : String → Option String) (io_error : String → String) where
  unfoldable pub read_secret : SecretRef → Result String
  read_secret (SecretRef.env name) =
      ok_or (env_var name)
        (new ErrorKind.internal ("required secret environment variable " ⧺ name ⧺ " is not set"))
  read_secret (SecretRef.file path) =
      ok_or (read_to_string path)
        (new ErrorKind.internal ("cannot read secret file " ⧺ path ⧺ ": " ⧺ io_error path))

  unfoldable pub resolve_secret : SecretRef → Result String
  resolve_secret secret = do
    value ← read_secret secret
    reject_if (is_blank (trim value)) (new ErrorKind.internal "resolved secret is empty")
    ok (trim value)
