-- ===== src/Server/Count.antt =====
-- `count_tokens` of src/server.rs, the handler of `POST /v1/messages/count_tokens`. `from_value` stands
-- for `serde_json::from_value` with its error message; `count_route` is what `Router::count_tokens`
-- answers for an accepted request. The request id on the reply is left out.
pub mod Released
pub mod Examples
use calude_proxy.Base.{
  ℕ, String, Bool, false, Option, none, some, List, [], ◌∷◌, ◌=?◌, if◌then◌else◌, ◌⧺◌,
}
use calude_proxy.Error.{ProxyError, Result, ok, err, invalid, ok_or, ◌>>=◌}
use calude_proxy.Json.{Value, bool, obj, json_number, as_object}
use calude_proxy.Domain.{AnthropicRequest}
use calude_proxy.Auth.{ClientIdentity, ClientState, Headers, acquire, release}
use calude_proxy.Server.{Runtime, Payload, json, Permits, Accepted, with_client, identify, decide}

-- The body of the request as JSON, or what the extractor says of it.
pub data CountPayload : Type 0 where
  value : Value → CountPayload
  rejected : (body_text : String) → CountPayload

-- `object.insert(key, value)`.
pub insert_field : String → Value → List (String × Value) → List (String × Value)
insert_field key v [] = (key, v) ∷ []
insert_field key v ((k, old) ∷ rest) =
    let later = insert_field key v rest in if k =? key then (key, v) ∷ rest else (k, old) ∷ later

abbrev pub json_of : CountPayload → Result Value
json_of (value v) = ok v
json_of (rejected body_text) = err (invalid ("invalid JSON request: " ⧺ body_text))

-- The object with the two fields that a request for a count need not have.
pub completed : List (String × Value) → Value
completed fields =
    obj (insert_field "stream" (bool false) (insert_field "max_tokens" (json_number 1) fields))

module _ (from_value : Value → Option AnthropicRequest) (value_error : Value → String) where
  pub counted_request : CountPayload → Result AnthropicRequest
  counted_request payload = do
    body ← json_of payload
    fields ← ok_or (as_object body) (invalid "request body must be an object")
    ok_or (from_value (completed fields))
        (invalid ("invalid token count request: " ⧺ value_error (completed fields)))

-- With the answer of `acquire`: the permit is dropped at the end in any case.
pub count_permitted :
    (id : String)
    → ClientState
    → Permits
    → (decision : Result ℕ) (permit : Result (Unit {0})) → Permits × Result ℕ
count_permitted id client p decision (err e) =
    (record p { clients = with_client id client p.clients }, err e)
count_permitted id client p decision (ok u) =
    (record p { clients = with_client id (release client) p.clients }, decision)

module _ {ℓ} {Digest : Type ℓ} (sha256 : String → Digest) (ct_eq : Digest → Digest → Bool)
    (is_match : List String → String → Bool) (base64_valid : String → Bool)
    (url_scheme : String → Option String) (from_value : Value → Option AnthropicRequest)
    (value_error : Value → String) (count_route : Accepted Digest → Result ℕ) where
  -- The checks that are made with the permit held: from `normalize` on they are those of
  -- `messages_inner`.
  pub count_decision : Runtime Digest → ClientIdentity Digest → CountPayload → Result ℕ
  count_decision runtime identity payload = do
    request ← counted_request from_value value_error payload
    accepted ← decide sha256 ct_eq is_match base64_valid url_scheme runtime identity (json request)
    count_route accepted

  pub count_identified :
      Runtime Digest
      → (now : ℕ) → CountPayload
      → Permits
      → Result (ClientIdentity Digest)
      → Permits × Result ℕ
  count_identified runtime now payload p (err e) = (p, err e)
  count_identified runtime now payload p (ok identity) =
      let (client, permit) =
        acquire identity.requests_per_minute identity.concurrent_requests now
          (p.clients identity.id) in
      count_permitted identity.id client p (count_decision runtime identity payload) permit

  pub count_tokens :
      Runtime Digest → (now : ℕ) → Headers → CountPayload → Permits → Permits × Result ℕ
  count_tokens runtime now headers payload p =
      count_identified runtime now payload p
        (identify sha256 ct_eq is_match base64_valid url_scheme runtime headers)
