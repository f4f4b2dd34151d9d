-- ===== src/Auth.antt =====
-- src/auth.rs: the client registry, and the rate and concurrency limits of a client. Instants are
-- seconds; a header is its first value, if that is text; `sha256` and `ct_eq` stand for the hash
-- and for the constant-time comparison of two hashes.
pub mod Configured
pub mod Keys
pub mod Limiter
pub mod Permit
use Prim.Native.Char.{code}
use Prim.Native.String
use calude_proxy.Base.{
  ℕ, suc, ◌+◌, ◌-◌, String, Bool, true, false, ◌||◌, Option, none, some, List, [], ◌∷◌, ◌++◌,
  length, byte_len, strip_prefix, any, find?, is_empty, ltb, leb, ◌==◌, ◌=?◌, if◌then◌else◌, ◌⧺◌,
}
use calude_proxy.Error.{ProxyError, ErrorKind, Result, ok, err, new, ok_or, ◌>>=◌}
use calude_proxy.Config.{ClientConfig, SecretRef}
use calude_proxy.Json.{and_then}

-- The part of `ClientIdentity` that does not change.
pub record ClientIdentity {ℓ} (Digest : Type ℓ) : Type ℓ where
  pub id : String
  pub key_hash : Digest
  pub allowed_routes : List String
  pub requests_per_minute : ℕ
  pub concurrent_requests : ℕ

-- The part that does: the instants of the counted requests, oldest first, and the permits in use.
pub record ClientState : Type 0 where
  pub limiter : List ℕ
  pub in_use : ℕ

abbrev pub Headers : Type 0
Headers = String → Option String

pub extract_key : Headers → Option String
extract_key headers = elim (headers "x-api-key") [
  | some value ↦ some value
  | none ↦ and_then (headers "authorization") (strip_prefix "Bearer ")
]

module _ {ℓ} {Digest : Type ℓ} (sha256 : String → Digest) where
  -- What a client with this key is entered as.
  pub identity : ClientConfig → String → ClientIdentity Digest
  identity config key = record {
    id = config.id;
    key_hash = sha256 key;
    allowed_routes = config.allowed_routes;
    requests_per_minute = config.requests_per_minute;
    concurrent_requests = config.concurrent_requests;
  }

  -- One turn of the loop of `AuthRegistry::new`; `resolve` stands for `SecretRef::resolve`.
  pub register : (SecretRef → Result String) → ClientConfig → Result (ClientIdentity Digest)
  register resolve config = do
    key ← resolve config.key
    if ltb (byte_len key) 24
        then err (new ErrorKind.internal ("client " ⧺ config.id ⧺ " key must be at least 24 bytes"))
        else ok (identity config key)

  -- `AuthRegistry::new`.
  pub registry :
      (SecretRef → Result String) → List ClientConfig → Result (List (ClientIdentity Digest))
  registry resolve [] = ok []
  registry resolve (config ∷ rest) = do
    client ← register resolve config
    clients ← registry resolve rest
    ok (client ∷ clients)

  pub authenticate :
      (ct_eq : Digest → Digest → Bool)
      → List (ClientIdentity Digest)
      → Headers
      → Result (ClientIdentity Digest)
  authenticate ct_eq clients headers = do
    key ← ok_or (extract_key headers) (new ErrorKind.authentication "missing API key")
    ok_or (find? (λ c. ct_eq c.key_hash (sha256 key)) clients)
        (new ErrorKind.authentication "invalid API key")

pub allows_route : List String → String → Bool
allows_route allowed_routes route =
    is_empty allowed_routes || any (λ allowed. allowed =? route) allowed_routes

-- The `while` that drops what is a minute old, from the front: `timestamp <= now - 60s`.
pub purge : ℕ → List ℕ → List ℕ
purge now [] = []
purge now (t ∷ rest) =
    let dropped = purge now rest in if leb (t + 60) now then dropped else t ∷ rest

-- `ClientIdentity::acquire`: the state after the call, and whether a permit is given out. The
-- request is counted before the permit is asked for.
pub acquire :
    (requests_per_minute concurrent_requests now : ℕ)
    → ClientState
    → ClientState × Result (Unit {0})
acquire requests_per_minute concurrent_requests now s =
    let requests = purge now s.limiter in
    if leb requests_per_minute (length requests)
    then (
      record s { limiter = requests },
      err (record (new ErrorKind.rate_limit "client request rate exceeded") {
        retry_after_seconds = some 1;
      }),
    )
    else if leb concurrent_requests s.in_use
    then (
      record s { limiter = requests ++ now ∷ [] },
      err (new ErrorKind.rate_limit "client concurrency exceeded"),
    )
    else (record { limiter = requests ++ now ∷ []; in_use = s.in_use + 1 }, ok tt)

-- Dropping a `ClientPermit`.
pub release : ClientState → ClientState
release s = record s { in_use = s.in_use - 1 }
