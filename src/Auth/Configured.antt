-- ===== src/Auth/Configured.antt =====
-- The client registry of a configuration that `AppConfig::validate` has accepted.
use calude_proxy.Base.{
  ◌≤◌, ◌≡◌, refl, ap, suc, String, Bool, Option, List, [], ◌∷◌, All, length, ltb, byte_len, arith,
  false, ℕ,
}
use calude_proxy.Error.{Result, ok}
use calude_proxy.Config.{AppConfig, ClientConfig, SecretRef}
use calude_proxy.Config.Validate.{Url, route_ids, validate}
use calude_proxy.Config.Validate.Entries.{ClientIsValid}
use calude_proxy.Config.Validate.Guarantees.{validate-IsValid}
use calude_proxy.Auth.{ClientIdentity, identity, register, registry}

not_short : (n : ℕ) → 24 ≤ n → ltb n 24 ≡ false
not_short n h = ground arith

module _ {ℓ} {Digest : Type ℓ} (sha256 : String → Digest)
    (resolve : SecretRef → Result String) where
  register-ClientIsValid :
      (routes : List String) (config : ClientConfig)
      → ClientIsValid resolve routes config
      → (c : ClientIdentity Digest) × (register sha256 resolve config ≡ ok c)
  unfolding register
  register-ClientIsValid routes config v =
      let (key, found, long) = v.key_is_long in
      (identity sha256 config key, rw (found, not_short (byte_len key) long) refl)

  registry-ClientIsValid :
      (routes : List String) (configs : List ClientConfig)
      → All (ClientIsValid resolve routes) configs
      → (clients : List (ClientIdentity Digest)) × (registry sha256 resolve configs ≡ ok clients)
        × (length clients ≡ length configs)
  unfolding registry
  registry-ClientIsValid routes [] v = ([], refl, refl)
  registry-ClientIsValid routes (config ∷ rest) v =
      let (c, e) = register-ClientIsValid routes config v.0 in
      let (cs, es, n) = registry-ClientIsValid routes rest v.1 in
      (c ∷ cs, rw (e, es) refl, ap suc n)

  -- `AuthRegistry::new` does not fail on a configuration that `validate` has accepted, as long as
  -- the secrets resolve to the same values: it enters every client.
  pub validate-registry :
      (parse_url : String → Option Url) (url_error : String → String)
      (header_name_valid : String → Bool) (config : AppConfig)
      → validate parse_url url_error header_name_valid resolve config ≡ ok tt
      → (clients : List (ClientIdentity Digest)) × (registry sha256 resolve config.clients
          ≡ ok clients)
        × (length clients ≡ length config.clients)
  validate-registry parse_url url_error header_name_valid config accepted =
      let valid = validate-IsValid parse_url url_error header_name_valid resolve config accepted in
      registry-ClientIsValid (route_ids config) config.clients valid.clients_are_valid
