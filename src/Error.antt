-- ===== src/Error.antt =====
-- src/error.rs: the error type that every part returns, its HTTP status, and the reply it becomes.
pub mod Invalid
pub mod Final
use calude_proxy.Base.{
  ℕ, String, Bool, true, false, Option, none, some, decimal, if◌then◌else◌, subst, ◌≡◌, refl, ◌⊎◌,
  inl, inr,
}

pub data ErrorKind : Type 0 where
  invalid_request authentication permission rate_limit overloaded upstream timeout internal :
      ErrorKind

pub record ProxyError : Type 0 where
  pub kind : ErrorKind
  pub message : String
  pub request_id : Option String
  pub retry_after_seconds : Option ℕ
  pub is_retryable : Bool

-- `ProxyError::new`.
abbrev pub new : ErrorKind → String → ProxyError
new kind message = record {
  kind = kind;
  message = message;
  request_id = none;
  retry_after_seconds = none;
  is_retryable = false;
}

-- `ProxyError::invalid`.
abbrev pub invalid : String → ProxyError
invalid message = new ErrorKind.invalid_request message

abbrev pub with_request_id : String → ProxyError → ProxyError
with_request_id id error = record error { request_id = some id }

abbrev pub with_retryable : ProxyError → ProxyError
with_retryable error = record error { is_retryable = true }

-- `ProxyError::status`: the HTTP status code of each kind.
unfoldable pub status : ErrorKind → ℕ
status ErrorKind.invalid_request = 400
status ErrorKind.authentication = 401
status ErrorKind.permission = 403
status ErrorKind.rate_limit = 429
status ErrorKind.overloaded = 503
status ErrorKind.timeout = 504
status ErrorKind.upstream = 502
status ErrorKind.internal = 500

-- `ProxyError::anthropic_type`: the error type that the Anthropic protocol names.
unfoldable pub anthropic_type : ErrorKind → String
anthropic_type ErrorKind.invalid_request = "invalid_request_error"
anthropic_type ErrorKind.authentication = "authentication_error"
anthropic_type ErrorKind.permission = "permission_error"
anthropic_type ErrorKind.rate_limit = "rate_limit_error"
anthropic_type ErrorKind.overloaded = "overloaded_error"
anthropic_type ErrorKind.timeout = "api_error"
anthropic_type ErrorKind.upstream = "api_error"
anthropic_type ErrorKind.internal = "api_error"

-- `ErrorBody` and `ErrorEnvelope`: the JSON body of an error reply.
pub record ErrorBody : Type 0 where
  pub kind : String
  pub message : String

pub record ErrorEnvelope : Type 0 where
  pub kind : String
  pub error : ErrorBody
  pub request_id : Option String

-- What `into_response` sends: status, body and the `retry-after` header.
pub record ErrorReply : Type 0 where
  pub status : ℕ
  pub body : ErrorEnvelope
  pub retry_after : Option String

abbrev retry_header : Option ℕ → Option String
retry_header none = none
retry_header (some seconds) = some (decimal seconds)

-- The number of seconds is printed in decimal, which a header value always accepts.
unfoldable pub into_response : ProxyError → ErrorReply
unfolding status anthropic_type
into_response error = record {
  status = status error.kind;
  body = record {
    kind = "error";
    error = record { kind = anthropic_type error.kind; message = error.message };
    request_id = error.request_id;
  };
  retry_after = retry_header error.retry_after_seconds;
}

-- `Result<T>` of error.rs.
pub data Result {ℓ} (Value : Type ℓ) : Type ℓ where
  ok : Value → Result Value
  err : ProxyError → Result Value

-- `option.ok_or_else(|| error)`.
abbrev pub ok_or {ℓ} : {Value : Type ℓ} → Option Value → ProxyError → Result Value
ok_or none error = err error
ok_or (some value) error = ok value

-- `if condition { return Err(error) }`.
abbrev pub reject_if : Bool → ProxyError → Result (Unit {0})
reject_if true error = err error
reject_if false error = ok tt

-- The `?` operator; `abbrev`, so that it computes wherever it stands.
infixl 5 ◌>>=◌
abbrev pub ◌>>=◌ {ℓ κ} :
    {Value : Type ℓ} {Next : Type κ} (attempt : Result Value) (next : Value → Result Next)
    → Result Next
err error >>= next = err error
ok value >>= next = next value

-- A statement whose value is dropped, as `check()?;`.
infixl 5 ◌>>◌
abbrev pub ◌>>◌ {ℓ κ} :
    {Value : Type ℓ} {Next : Type κ} (attempt : Result Value) (rest : Result Next) → Result Next
attempt >> rest = attempt >>= (λ _. rest)

-- A bind that succeeds, taken apart.
pub >>=-eq-ok {ℓ κ} :
    {Value : Type ℓ} {Next : Type κ} (attempt : Result Value) (next : Value → Result Next)
    {result : Next}
    → attempt >>= next ≡ ok result
    → (value : Value) × (attempt ≡ ok value) × (next value ≡ ok result)
>>=-eq-ok (err error) next succeeds = cc
>>=-eq-ok (ok value) next succeeds = (value, refl, succeeds)

-- To split on a computed result and keep the equation.
pub Result-cases {ℓ} :
    {Value : Type ℓ} (attempt : Result Value)
    → ((error : ProxyError) × (attempt ≡ err error)) ⊎ ((value : Value) × (attempt ≡ ok value))
Result-cases (err error) = inl (error, refl)
Result-cases (ok value) = inr (value, refl)

-- A branch of a chain of tests.
pub chosen {ℓ κ} :
    {A : Type ℓ} (P : A → Type κ) (b : Bool) (a : A) (rest : Result A) {r : A}
    → (if b then ok a else rest) ≡ ok r
    → (b ≡ true → P a)
    → (rest ≡ ok r → P r)
    → P r
chosen P true a rest {r} h yes' no' = let same : a ≡ r = cc h in subst P same (yes' refl)
chosen P Bool.false a rest h yes' no' = no' h
