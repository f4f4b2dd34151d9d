-- ===== src/Config/Secrets/Failures.antt =====
-- The errors of `SecretRef::resolve` in src/config.rs.
use calude_proxy.Base.{String, Option, is_blank, trim}
use calude_proxy.Error.{ErrorKind, new, reject_if}
use calude_proxy.Error.Final.{
  FailsFinal, FailsFinal-ok, FailsFinal-ok_or, FailsFinal-reject_if, FailsFinal-bind,
}
use calude_proxy.Config.{SecretRef}
use calude_proxy.Config.Secrets.{read_secret, resolve_secret}

module _ (env_var read_to_string : String → Option String) (io_error : String → String) where
  read_secret-FailsFinal :
      (secret : SecretRef) → FailsFinal (read_secret env_var read_to_string io_error secret)
  unfolding read_secret
  read_secret-FailsFinal (SecretRef.env name) = FailsFinal-ok_or (env_var name) _ _
  read_secret-FailsFinal (SecretRef.file path) = FailsFinal-ok_or (read_to_string path) _ _

  -- A secret that cannot be read is never a reason to retry.
  pub resolve_secret-FailsFinal :
      (secret : SecretRef) → FailsFinal (resolve_secret env_var read_to_string io_error secret)
  unfolding resolve_secret
  resolve_secret-FailsFinal secret =
      FailsFinal-bind (read_secret env_var read_to_string io_error secret) _
        (read_secret-FailsFinal secret)
        (λ value.
          FailsFinal-bind
            (reject_if (is_blank (trim value)) (new ErrorKind.internal "resolved secret is empty"))
            _ (FailsFinal-reject_if _ _ _) (λ u. FailsFinal-ok (trim value)))
