-- ===== src/Provider/Calls.antt =====
-- The calls of one provider in src/provider.rs: `apply_auth`, `send`, `execute`, `stream`, `probe` and
-- `count_tokens`. `http` stands for the HTTP client: what comes of one request; `resolve` is
-- `SecretRef::resolve`. Metrics are left out.
pub mod Delivered
pub mod Retried
pub mod Examples
use Prim.Native.Char.{code}
use Prim.Native.String
use calude_proxy.Base.{
  ℕ, ◌+◌, ◌-◌, ◌*◌, String, Bool, true, false, ◌&&◌, Option, none, some, List, [], ◌∷◌, ltb, leb,
  ◌==◌, if◌then◌else◌, ◌⧺◌,
}
use calude_proxy.Error.{ProxyError, ErrorKind, Result, ok, err, new, ◌>>=◌}
use calude_proxy.Json.{Value, and_then, unwrap_or}
use calude_proxy.Domain.{NormalizedRequest, AnthropicResponse}
use calude_proxy.Config.{ProviderKind, CredentialConfig, SecretRef, credential_secret}
use calude_proxy.Provider.{Provider}
use calude_proxy.Provider.Adapt.{adapt_request}
use calude_proxy.Provider.Body.{build_request, chat_completions_url}
use calude_proxy.Provider.Response.{OpenAiResponse, convert_response}
use calude_proxy.Provider.Status.{TransportError, classify_status, classify_transport}
use calude_proxy.Provider.Emits.{Emits}
use calude_proxy.Provider.Sse.{Delivery, parse_sse}

-- The header that carries the secret.
pub data Auth : Type 0 where
  bearer_auth api_key_header : String → Auth

pub record HttpRequest : Type 0 where
  pub method : String
  pub url : String
  pub auth : Auth
  pub body : Option Value

-- What `response.json()` makes of a body.
pub data Decoded : Type 0 where
  parsed : OpenAiResponse → Decoded
  unreadable : (message : String) → Decoded

-- A response: its status, its `retry-after` header if that is text, and what its body is read as.
pub record HttpResponse : Type 0 where
  pub status : ℕ
  pub retry_after : Option String
  pub text : Option String
  pub json : Decoded
  pub bytes_stream : List Delivery

pub data Sent : Type 0 where
  responded : HttpResponse → Sent
  broken_off : TransportError → Sent

-- `StatusCode::is_success`.
abbrev pub is_success : ℕ → Bool
is_success status = leb 200 status && ltb status 300

-- `str::parse::<u64>`: decimal digits after an optional plus sign, with a value below 2^64.
unfoldable pub digits_value : ℕ → String → Option ℕ
digits_value value String.[] = some value
digits_value value (String.◌∷◌ c rest) =
    let more = digits_value (value * 10 + (code c - b'0')) rest in
    if leb b'0' (code c) && leb (code c) b'9' then more else none

abbrev pub below_u64 : ℕ → Option ℕ
below_u64 value = if ltb value 18446744073709551616 then some value else none

unfoldable pub unsigned : String → Option ℕ
unsigned String.[] = none
unsigned (String.◌∷◌ c rest) = and_then (digits_value 0 (String.◌∷◌ c rest)) below_u64

unfoldable pub parse_u64 : String → Option ℕ
parse_u64 String.[] = none
parse_u64 (String.◌∷◌ c rest) =
    if code c == b'+' then unsigned rest else unsigned (String.◌∷◌ c rest)

-- The `match` of `apply_auth`.
unfoldable pub auth_for : ProviderKind → CredentialConfig → String → Auth
auth_for kind (CredentialConfig.bearer s) secret = bearer_auth secret
auth_for ProviderKind.azure_chat (CredentialConfig.api_key s) secret = api_key_header secret
auth_for ProviderKind.azure_chat (CredentialConfig.azure_entra s) secret = bearer_auth secret
auth_for ProviderKind.openai_chat (CredentialConfig.api_key s) secret = bearer_auth secret
auth_for ProviderKind.openai_chat (CredentialConfig.azure_entra s) secret = bearer_auth secret

module _ (resolve : SecretRef → Result String) (http : HttpRequest → Sent)
    (from_str : String → Option Value) (status_text : ℕ → String)
    (split_once : String → Option (String × String)) where
  pub apply_auth : Provider → Result Auth
  apply_auth p = do
    secret ← resolve (credential_secret p.credential)
    ok (auth_for p.kind p.credential secret)

  -- `builder.send()` with the error classified.
  pub transport : Sent → Result HttpResponse
  transport (responded response) = ok response
  transport (broken_off error) = err (classify_transport error)

  -- What `send` makes of a response.
  pub accept_status : HttpResponse → Result HttpResponse
  accept_status response =
      if is_success response.status
      then ok response
      else err (
          classify_status from_str status_text response.status (unwrap_or response.text "")
            (and_then response.retry_after parse_u64))

  -- The request of `send`.
  abbrev pub call_of : Provider → Auth → Value → HttpRequest
  call_of p auth body = record {
    method = "POST";
    url = chat_completions_url split_once p.endpoint;
    auth = auth;
    body = some body;
  }

  pub send : Provider → Value → Result HttpResponse
  send p body = do
    auth ← apply_auth p
    response ← transport (http (call_of p auth body))
    accept_status response

  pub probe : Provider → Result (Unit {0})
  probe p = do
    auth ← apply_auth p
    response ←
        transport
          (http (record { method = "GET"; url = p.endpoint ⧺ "/models"; auth = auth; body = none }))
    if is_success response.status
        then ok tt
        else err
            (classify_status from_str status_text response.status (unwrap_or response.text "") none)

  pub decoded : Decoded → Result OpenAiResponse
  decoded (parsed response) = ok response
  decoded (unreadable message) =
      err (new ErrorKind.upstream ("provider returned invalid JSON: " ⧺ message))

  module _ (to_string : Value → Option String) (print_error : Value → String) where
    pub execute : Provider → NormalizedRequest → (model : String) → Result AnthropicResponse
    execute p request model = do
      adapted ← adapt_request to_string p.capabilities request
      body ← build_request to_string print_error p.capabilities adapted model false
      response ← send p body
      reply ← decoded response.json
      convert_response from_str reply request.original_model

    pub stream :
        (json_error : String → String)
        → Provider
        → NormalizedRequest
        → (model : String) → Result (Emits (Unit {0}))
    stream json_error p request model = do
      adapted ← adapt_request to_string p.capabilities request
      body ← build_request to_string print_error p.capabilities adapted model true
      response ← send p body
      ok (parse_sse from_str json_error response.bytes_stream)
