-- ===== src/Provider/Status.antt =====
-- `classify_status`, `classify_transport` and `truncate` of src/provider.rs: what a failed call
-- becomes.
pub mod Retry
use Prim.Native.String
use calude_proxy.Base.{
  ℕ, zero, suc, String, Bool, true, false, ◌||◌, Option, none, some, List, [], ◌∷◌, ◌==◌,
  if◌then◌else◌, ◌⧺◌, any,
}
use calude_proxy.Error.{ProxyError, ErrorKind, new, with_retryable}
use calude_proxy.Json.{Value, pointer, as_str, and_then, unwrap_or}

-- `value.chars().take(max)`.
pub truncate : String → ℕ → String
truncate String.[] max = ""
truncate (String.◌∷◌ c rest) zero = ""
truncate (String.◌∷◌ c rest) (suc max) = String.◌∷◌ c (truncate rest max)

abbrev code_in : ℕ → List ℕ → Bool
code_in status codes = any (λ c. status == c) codes

pub status_kind : ℕ → ErrorKind
status_kind status =
    if code_in status (400 ∷ 404 ∷ 409 ∷ 422 ∷ [])
    then ErrorKind.invalid_request
    else if status == 401
    then ErrorKind.upstream
    else if status == 403
    then ErrorKind.upstream
    else if status == 408
    then ErrorKind.timeout
    else if status == 429
    then ErrorKind.rate_limit
    else if code_in status (500 ∷ 502 ∷ 503 ∷ 504 ∷ 529 ∷ [])
    then ErrorKind.overloaded
    else ErrorKind.upstream

pub retryable_status : ℕ → Bool
retryable_status status = code_in status (408 ∷ 429 ∷ 500 ∷ 502 ∷ 503 ∷ 504 ∷ 529 ∷ [])

-- `from_str` stands for `serde_json::from_str`, `status_text` for how a status code is displayed.
module _ (from_str : String → Option Value) (status_text : ℕ → String) where
  abbrev pub provider_message : ℕ → String → String
  provider_message status body =
      unwrap_or (and_then (and_then (from_str body) (λ v. pointer v "error" "message")) as_str)
        ("HTTP " ⧺ status_text status)

  pub classify_status : ℕ → String → Option ℕ → ProxyError
  classify_status status body retry_after =
      record (new (status_kind status)
        ("upstream rejected request: " ⧺ truncate (provider_message status body) 512)) {
          is_retryable = retryable_status status;
          retry_after_seconds = retry_after;
        }

-- What `reqwest` says of a call that got no response.
pub record TransportError : Type 0 where
  pub is_connect : Bool
  pub is_timeout : Bool
  pub text : String

unfoldable pub classify_transport : TransportError → ProxyError
classify_transport error =
    if error.is_connect
    then with_retryable (new ErrorKind.upstream ("upstream connection failure: " ⧺ error.text))
    else if error.is_timeout
    then new ErrorKind.timeout "upstream request timed out"
    else new ErrorKind.upstream ("upstream transport failure: " ⧺ error.text)
