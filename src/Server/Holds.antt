-- ===== src/Server/Holds.antt =====
-- The permits that `messages_inner` holds.
pub mod Examples
use calude_proxy.Base.{
  eq_iff, subst, ℕ, ◌+◌, ◌≤◌, ◌<◌, ◌≡◌, refl, ◌∙◌, String, Bool, true, not, Option, List, leb, ◌=?◌,
  if◌then◌else◌, Bool-cases, inl, inr, arith,
}
use calude_proxy.Error.{ProxyError, Result, ok, err, reject_if, >>=-eq-ok}
use calude_proxy.Anthropic.Normalize.{normalize}
use calude_proxy.Routing.Resolve.{resolve}
use calude_proxy.Auth.{ClientIdentity, ClientState, Headers, release, allows_route}
use calude_proxy.Auth.Permit.{acquire-err, acquire-ok, release-in_use}
use calude_proxy.Server.{
  Runtime, Payload, Permits, Accepted, with_client, with_decision, with_permit, with_identity,
  identify, decide, accept, payload_of,
}

-- What a request does to the permits in use, by its result: a refused one holds none; an accepted one
-- holds one of its client, and one of the process, within the limit.
pub HoldsOf {ℓ} : {Digest : Type ℓ} → ℕ → Permits → Permits → Result (Accepted Digest) → Type 0
HoldsOf limit p q (err e) =
    ((id : String) → (q.clients id).in_use ≡ (p.clients id).in_use) × (q.global ≡ p.global)
HoldsOf limit p q (ok a) =
    ((id : String)
      → (q.clients id).in_use ≡ (p.clients id).in_use + (if a.identity.id =? id then 1 else 0))
    × (q.global ≡ p.global + 1)
    × (q.global ≤ limit)
    × ((q.clients a.identity.id).in_use ≤ a.identity.concurrent_requests)

with_client-in_use :
    (id : String) (s : ClientState) (clients : String → ClientState) (k : ℕ)
    → s.in_use ≡ (clients id).in_use + k
    → (other : String)
    → (with_client id s clients other).in_use
      ≡ (clients other).in_use + (if id =? other then k else 0)
unfolding with_client
with_client-in_use id s clients k h other = elim (Bool-cases (id =? other)) [
  | inl same ↦
      let equal = (eq_iff id other).0 same in
      rw same (subst (λ x. s.in_use ≡ (clients x).in_use + k) equal h)
  | inr differs ↦ rw differs (omega arith)
]

-- A client whose permit was taken and dropped again, or never taken.
pub with_client-same :
    (id : String) (s : ClientState) (clients : String → ClientState)
    → s.in_use ≡ (clients id).in_use
    → (other : String) → (with_client id s clients other).in_use ≡ (clients other).in_use
unfolding with_client
with_client-same id s clients h other = elim (Bool-cases (id =? other)) [
  | inl same ↦
      let equal = (eq_iff id other).0 same in
      rw same (subst (λ x. s.in_use ≡ (clients x).in_use) equal h)
  | inr differs ↦ rw differs refl
]

with_client_self :
    (id : String) (s : ClientState) (clients : String → ClientState)
    → with_client id s clients id ≡ s
unfolding with_client
with_client_self id s clients = let same : (id =? id) ≡ true = (eq_iff id id).1 refl in rw same refl

module _ {ℓ} {Digest : Type ℓ} where
  -- The client's permit is one more than before, if it was given out.
  with_decision-HoldsOf :
      (limit : ℕ) (identity : ClientIdentity Digest) (client : ClientState) (p : Permits)
      (decision : Result (Accepted Digest))
      → client.in_use ≡ (p.clients identity.id).in_use + 1
      → client.in_use ≤ identity.concurrent_requests
      → p.global < limit
      → ((a : Accepted Digest) → decision ≡ ok a → identity ≡ a.identity)
      → let done = with_decision identity.id client p decision in HoldsOf limit p done.0 done.1
  unfolding HoldsOf with_decision
  with_decision-HoldsOf limit identity client p (err e) h l g d = (
    with_client-same identity.id (release client) p.clients (release-in_use client ∙ (omega arith)),
    refl,
  )
  with_decision-HoldsOf limit identity client p (ok a) h l g d = (
    subst
        (λ c.
          (id : String)
          → (with_client identity.id client p.clients id).in_use
            ≡ (p.clients id).in_use + (if c.id =? id then 1 else 0))
        (d a refl) (with_client-in_use identity.id client p.clients 1 h),
    refl,
    omega arith,
    subst (λ c. (with_client identity.id client p.clients c.id).in_use ≤ c.concurrent_requests)
        (d a refl) (rw (with_client_self identity.id client p.clients) l),
  )

  with_permit-HoldsOf :
      (limit : ℕ) (identity : ClientIdentity Digest) (client : ClientState) (p : Permits)
      (decision : Result (Accepted Digest)) (permit : Result (Unit {0}))
      → ((e : ProxyError) → permit ≡ err e → client.in_use ≡ (p.clients identity.id).in_use)
      → ((u : Unit {0})
          → permit ≡ ok u
          → (client.in_use ≡ (p.clients identity.id).in_use + 1)
            × ((p.clients identity.id).in_use + 1 ≤ identity.concurrent_requests))
      → ((a : Accepted Digest) → decision ≡ ok a → identity ≡ a.identity)
      → let done = with_permit limit identity.id client p decision permit in
        HoldsOf limit p done.0 done.1
  unfolding with_permit
  with_permit-HoldsOf limit identity client p decision (err e) refused granted d =
      unfold HoldsOf in (with_client-same identity.id client p.clients (refused e refl), refl)
  with_permit-HoldsOf limit identity client p decision (ok u) refused granted d =
      let (counted, fits) = granted u refl in
      elim (Bool-cases (leb limit p.global)) [
        | inl full ↦ rw full (
            unfold HoldsOf in
            (
              with_client-same identity.id (release client) p.clients
                  (release-in_use client ∙ (omega arith)),
              refl,
            ))
        | inr room ↦ rw room (
            with_decision-HoldsOf limit identity client p decision counted (omega arith)
              (ground arith) d)
      ]

module _ {ℓ} {Digest : Type ℓ} (sha256 : String → Digest) (ct_eq : Digest → Digest → Bool)
    (is_match : List String → String → Bool) (base64_valid : String → Bool)
    (url_scheme : String → Option String) where
  decide-identity :
      (runtime : Runtime Digest) (identity : ClientIdentity Digest) (payload : Payload)
      (a : Accepted Digest)
      → decide sha256 ct_eq is_match base64_valid url_scheme runtime identity payload ≡ ok a
      → identity ≡ a.identity
  unfolding decide
  decide-identity runtime identity payload a h =
      let (body, e1, h1) = >>=-eq-ok (payload_of payload) _ h in
      let (request, e2, h2) =
        >>=-eq-ok (normalize base64_valid url_scheme body runtime.loose_input_validation) _ h1 in
      let (route, e3, h3) =
        >>=-eq-ok (resolve is_match runtime.routes request.original_model) _ h2 in
      let (u, e4, h4) =
        >>=-eq-ok (reject_if (not (allows_route identity.allowed_routes route.id)) _) _ h3 in
      cc h4

  -- Whatever a request is answered, the permits add up: a request that is refused, at any check,
  -- leaves as many permits of each client and of the process in use as there were; one that is
  -- accepted holds exactly one more of its client and of the process, and neither limit is exceeded.
  pub accept_holds :
      (runtime : Runtime Digest) (now : ℕ) (headers : Headers) (payload : Payload) (p : Permits)
      → let done =
          accept sha256 ct_eq is_match base64_valid url_scheme runtime now headers payload p in
        HoldsOf runtime.global_concurrency p done.0 done.1
  unfolding accept
  accept_holds runtime now headers payload p =
      go (identify sha256 ct_eq is_match base64_valid url_scheme runtime headers)
    where
      go :
          (r : Result (ClientIdentity Digest))
          → let done =
              with_identity sha256 ct_eq is_match base64_valid url_scheme runtime now payload p r in
            HoldsOf runtime.global_concurrency p done.0 done.1
      go (err e) = unfold HoldsOf with_identity in ((λ id. refl), refl)
      go (ok identity) =
          unfold with_identity in
          let rpm = identity.requests_per_minute in
          let limit = identity.concurrent_requests in
          let before = p.clients identity.id in
          with_permit-HoldsOf runtime.global_concurrency identity _ p _ _
            (acquire-err rpm limit now before) (acquire-ok rpm limit now before)
            (decide-identity runtime identity payload)
