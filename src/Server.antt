-- ===== src/Server.antt =====
-- src/server.rs: the order of the checks of `POST /v1/messages`, the permits that a request holds, and
-- the event stream that it is answered with. HTTP itself, metrics and logs are left out.
pub mod Stream
pub mod Holds
pub mod Count
use calude_proxy.Base.{
  ℕ, ◌+◌, ◌-◌, String, Bool, true, false, not, ◌&&◌, Option, none, some, List, [], ◌∷◌, leb,
  byte_len, ◌=?◌, ◌⧺◌, if◌then◌else◌,
}
use calude_proxy.Error.{
  ProxyError, ErrorKind, Result, ok, err, new, invalid, reject_if, ◌>>=◌, ◌>>◌,
}
use calude_proxy.Domain.{AnthropicRequest, NormalizedRequest}
use calude_proxy.Auth.{
  ClientIdentity, ClientState, Headers, authenticate, allows_route, acquire, release,
}
use calude_proxy.Anthropic.Normalize.{normalize, all_name_chars}
use calude_proxy.Routing.Resolve.{Route, resolve}

-- What `Runtime` holds that does not change between reloads.
pub record Runtime {ℓ} (Digest : Type ℓ) : Type ℓ where
  pub require_anthropic_version : Bool
  pub loose_input_validation : Bool
  pub global_concurrency : ℕ
  pub clients : List (ClientIdentity Digest)
  pub routes : List Route

pub validate_version : Bool → Headers → Result (Unit {0})
validate_version require_anthropic_version headers =
    if not require_anthropic_version then ok tt else elim (headers "anthropic-version") [
      | none ↦ err (invalid "anthropic-version header is required")
      | some version ↦
          if version =? "2023-06-01"
          then ok tt
          else err (invalid ("unsupported anthropic-version " ⧺ version))
    ]

-- `request_id`; `fresh` is the new UUID in its simple form.
pub request_id : Headers → (fresh : String) → String
request_id headers fresh = elim (headers "x-request-id") [
  | none ↦ "req_" ⧺ fresh
  | some value ↦ if leb (byte_len value) 128 && all_name_chars value then value else "req_" ⧺ fresh
]

-- The body of the request, or what the JSON extractor says of it.
pub data Payload : Type 0 where
  json : AnthropicRequest → Payload
  rejected : (body_text : String) → Payload

abbrev payload_of : Payload → Result AnthropicRequest
payload_of (json request) = ok request
payload_of (rejected body_text) = err (invalid ("invalid JSON request: " ⧺ body_text))

-- The permits in use: those of each client, by its id, and those of the process.
pub record Permits : Type 0 where
  pub clients : String → ClientState
  pub global : ℕ

pub with_client : String → ClientState → (String → ClientState) → String → ClientState
with_client id s clients other = if id =? other then s else clients other

pub record Accepted {ℓ} (Digest : Type ℓ) : Type ℓ where
  pub identity : ClientIdentity Digest
  pub request : NormalizedRequest
  pub route : Route

module _ {ℓ} {Digest : Type ℓ} where
  -- With both permits held: they are kept for an accepted request, and dropped with an error.
  pub with_decision :
      (id : String)
      → ClientState
      → Permits
      → Result (Accepted Digest)
      → Permits × Result (Accepted Digest)
  with_decision id client p (err e) =
      (record p { clients = with_client id (release client) p.clients }, err e)
  with_decision id client p (ok accepted) =
      (record { clients = with_client id client p.clients; global = p.global + 1 }, ok accepted)

  -- With the answer of `acquire`, then the semaphore's.
  pub with_permit :
      (global_concurrency : ℕ) (id : String)
      → ClientState
      → Permits
      → Result (Accepted Digest)
      → Result (Unit {0})
      → Permits × Result (Accepted Digest)
  with_permit global_concurrency id client p decision (err e) =
      (record p { clients = with_client id client p.clients }, err e)
  with_permit global_concurrency id client p decision (ok u) =
      if leb global_concurrency p.global
      then (
        record p { clients = with_client id (release client) p.clients },
        err (new ErrorKind.overloaded "proxy concurrency limit exceeded"),
      )
      else with_decision id client p decision

module _ {ℓ} {Digest : Type ℓ} (sha256 : String → Digest) (ct_eq : Digest → Digest → Bool)
    (is_match : List String → String → Bool) (base64_valid : String → Bool)
    (url_scheme : String → Option String) where
  pub identify : Runtime Digest → Headers → Result (ClientIdentity Digest)
  identify runtime headers = do
    validate_version runtime.require_anthropic_version headers
    authenticate sha256 ct_eq runtime.clients headers

  -- The checks that are made with both permits held.
  pub decide : Runtime Digest → ClientIdentity Digest → Payload → Result (Accepted Digest)
  decide runtime identity payload = do
    body ← payload_of payload
    request ← normalize base64_valid url_scheme body runtime.loose_input_validation
    route ← resolve is_match runtime.routes request.original_model
    reject_if (not (allows_route identity.allowed_routes route.id))
        (new ErrorKind.permission "client is not allowed to use this route")
    ok (record { identity = identity; request = request; route = route })

  -- `messages_inner` up to the call of a provider.
  pub with_identity :
      Runtime Digest
      → (now : ℕ) → Payload
      → Permits
      → Result (ClientIdentity Digest)
      → Permits × Result (Accepted Digest)
  with_identity runtime now payload p (err e) = (p, err e)
  with_identity runtime now payload p (ok identity) =
      let (client, permit) =
        acquire identity.requests_per_minute identity.concurrent_requests now
          (p.clients identity.id) in
      with_permit runtime.global_concurrency identity.id client p (decide runtime identity payload)
        permit

  pub accept :
      Runtime Digest → (now : ℕ) → Headers → Payload → Permits → Permits × Result (Accepted Digest)
  accept runtime now headers payload p =
      with_identity runtime now payload p (identify runtime headers)
