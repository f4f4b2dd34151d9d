-- ===== src/Server/Count/Released.antt =====
-- What a request for a count leaves behind.
use calude_proxy.Base.{ℕ, ◌+◌, ◌≡◌, refl, ◌∙◌, String, Bool, Option, List, arith}
use calude_proxy.Error.{ProxyError, Result, ok, err, >>=-eq-ok}
use calude_proxy.Json.{Value}
use calude_proxy.Domain.{AnthropicRequest}
use calude_proxy.Auth.{ClientIdentity, ClientState, Headers, acquire, release}
use calude_proxy.Auth.Permit.{acquire-err, acquire-ok, release-in_use}
use calude_proxy.Server.{Runtime, json, Permits, Accepted, identify, decide}
use calude_proxy.Server.Holds.{with_client-same}
use calude_proxy.Server.Count.{
  CountPayload, counted_request, count_permitted, count_decision, count_identified, count_tokens,
}

-- As many permits in use as before.
abbrev pub SameInUse : Permits → Permits → Type 0
SameInUse p q =
    ((id : String) → (q.clients id).in_use ≡ (p.clients id).in_use) × (q.global ≡ p.global)

count_permitted-SameInUse :
    (id : String) (client : ClientState) (p : Permits) (decision : Result ℕ)
    (permit : Result (Unit {0}))
    → ((e : ProxyError) → permit ≡ err e → client.in_use ≡ (p.clients id).in_use)
    → ((u : Unit {0}) → permit ≡ ok u → client.in_use ≡ (p.clients id).in_use + 1)
    → SameInUse p (count_permitted id client p decision permit).0
unfolding count_permitted
count_permitted-SameInUse id client p decision (err e) refused granted =
    (with_client-same id client p.clients (refused e refl), refl)
count_permitted-SameInUse id client p decision (ok u) refused granted =
    let counted = granted u refl in
    (with_client-same id (release client) p.clients (release-in_use client ∙ (omega arith)), refl)

count_permitted-ok :
    (id : String) (client : ClientState) (p : Permits) (decision : Result ℕ)
    (permit : Result (Unit {0})) {n : ℕ}
    → (count_permitted id client p decision permit).1 ≡ ok n
    → decision ≡ ok n
unfolding count_permitted
count_permitted-ok id client p decision (err e) h = cc
count_permitted-ok id client p decision (ok u) h = h

module _ {ℓ} {Digest : Type ℓ} (sha256 : String → Digest) (ct_eq : Digest → Digest → Bool)
    (is_match : List String → String → Bool) (base64_valid : String → Bool)
    (url_scheme : String → Option String) (from_value : Value → Option AnthropicRequest)
    (value_error : Value → String) (count_route : Accepted Digest → Result ℕ) where
  -- The request would be accepted as a message, for this identity, and is counted as that.
  pub record Counted (runtime : Runtime Digest) (headers : Headers) (payload : CountPayload) (n : ℕ)
      : Type ℓ where
    pub identity : ClientIdentity Digest
    pub request : AnthropicRequest
    pub accepted : Accepted Digest
    pub identified :
        identify sha256 ct_eq is_match base64_valid url_scheme runtime headers ≡ ok identity
    pub completed : counted_request from_value value_error payload ≡ ok request
    pub decided :
        decide sha256 ct_eq is_match base64_valid url_scheme runtime identity (json request)
        ≡ ok accepted
    pub counted : count_route accepted ≡ ok n

  -- What a number that is answered means.
  abbrev pub CountedAs : Runtime Digest → Headers → CountPayload → Result ℕ → Type ℓ
  CountedAs runtime headers payload (err e) = Unit
  CountedAs runtime headers payload (ok n) = Counted runtime headers payload n

  CountedAs-result :
      (runtime : Runtime Digest) (headers : Headers) (payload : CountPayload) (r : Result ℕ)
      → ((n : ℕ) → r ≡ ok n → Counted runtime headers payload n)
      → CountedAs runtime headers payload r
  CountedAs-result runtime headers payload (err e) h = tt
  CountedAs-result runtime headers payload (ok n) h = h n refl

  count_decision-Counted :
      (runtime : Runtime Digest) (headers : Headers) (payload : CountPayload)
      (identity : ClientIdentity Digest)
      → identify sha256 ct_eq is_match base64_valid url_scheme runtime headers ≡ ok identity
      → (n : ℕ)
      → count_decision sha256 ct_eq is_match base64_valid url_scheme from_value value_error
          count_route runtime identity payload
        ≡ ok n
      → Counted runtime headers payload n
  unfolding count_decision
  count_decision-Counted runtime headers payload identity same n h =
      let (request, e1, h1) = >>=-eq-ok (counted_request from_value value_error payload) _ h in
      let (accepted, e2, h2) =
        >>=-eq-ok
          (decide sha256 ct_eq is_match base64_valid url_scheme runtime identity (json request)) _
          h1 in
      record {
        identity = identity;
        request = request;
        accepted = accepted;
        identified = same;
        completed = e1;
        decided = e2;
        counted = h2;
      }

  -- Whatever a request for a count is answered, every client and the process have as many permits in
  -- use as before. If it is answered with a number, the same client may send the same request, with
  -- max_tokens 1 and no stream, as a message: it passes all checks that are made before a provider
  -- is called but those of the limits, and the number is the count of what it is normalized to.
  pub count_tokens_releases :
      (runtime : Runtime Digest) (now : ℕ) (headers : Headers) (payload : CountPayload)
      (p : Permits)
      → let done =
          count_tokens sha256 ct_eq is_match base64_valid url_scheme from_value value_error
            count_route runtime now headers payload p in
        SameInUse p done.0 × CountedAs runtime headers payload done.1
  unfolding count_tokens
  count_tokens_releases runtime now headers payload p =
      go (identify sha256 ct_eq is_match base64_valid url_scheme runtime headers) refl
    where
      go :
          (r : Result (ClientIdentity Digest))
          → identify sha256 ct_eq is_match base64_valid url_scheme runtime headers ≡ r
          → let done =
              count_identified sha256 ct_eq is_match base64_valid url_scheme from_value value_error
                count_route runtime now payload p r in
            SameInUse p done.0 × CountedAs runtime headers payload done.1
      go (err e) same = unfold count_identified in (((λ id. refl), refl), tt)
      go (ok identity) same =
          unfold count_identified in
          let rpm = identity.requests_per_minute in
          let limit = identity.concurrent_requests in
          let before = p.clients identity.id in
          let answer = acquire rpm limit now before in
          let decision =
            count_decision sha256 ct_eq is_match base64_valid url_scheme from_value value_error
              count_route runtime identity payload in
          (
            count_permitted-SameInUse identity.id answer.0 p decision answer.1
                (acquire-err rpm limit now before) (λ u h. (acquire-ok rpm limit now before u h).0),
            CountedAs-result runtime headers payload
                (count_permitted identity.id answer.0 p decision answer.1).1
                (λ n h.
                  count_decision-Counted runtime headers payload identity same n
                    (count_permitted-ok identity.id answer.0 p decision answer.1 h)),
          )
