-- ===== src/Provider/Calls/Delivered.antt =====
-- What came of a request that was sent, when its error may be retried with another target.
use calude_proxy.Base.{◌≡◌, ◌⊎◌, refl, ℕ, String, true, Option, arith, Bool-cases, inl, inr}
use calude_proxy.Error.{ProxyError, Result, ok, err, >>=-eq-ok, ◌>>=◌}
use calude_proxy.Error.Final.{FailsFinal, FailsFinal-ok, FailsFinal-err, FailsFinal-bind}
use calude_proxy.Json.{Value, and_then, unwrap_or}
use calude_proxy.Config.{SecretRef, credential_secret}
use calude_proxy.Provider.{Provider}
use calude_proxy.Provider.Status.{classify_transport}
use calude_proxy.Provider.Status.Retry.{is_retryable-classify_status, retryable_status_iff}
use calude_proxy.Provider.Calls.{
  parse_u64, HttpRequest, HttpResponse, Sent, responded, broken_off, Decoded, is_success,
  apply_auth, auth_for, call_of, transport, accept_status, send, decoded,
}

pub bind-eq-err {ℓ κ} :
    {A : Type ℓ} {B : Type κ} (m : Result A) (f : A → Result B) {e : ProxyError}
    → (m >>= f) ≡ err e
    → (m ≡ err e) ⊎ ((a : A) × (m ≡ ok a) × (f a ≡ err e))
bind-eq-err (err e) f h = inl (cc h)
bind-eq-err (ok a) f h = inr (a, refl, h)

-- What may come of a request for it to be retried: no connection, or one of the statuses for it.
abbrev pub MayRetry : Sent → Type 0
MayRetry (responded response) =
    (response.status ≡ 408)
    ⊎ (response.status ≡ 429)
    ⊎ (response.status ≡ 500)
    ⊎ (response.status ≡ 502)
    ⊎ (response.status ≡ 503)
    ⊎ (response.status ≡ 504)
    ⊎ (response.status ≡ 529)
MayRetry (broken_off error) = error.is_connect ≡ true

module _ (resolve : SecretRef → Result String) (http : HttpRequest → Sent)
    (from_str : String → Option Value) (status_text : ℕ → String)
    (split_once : String → Option (String × String)) where
  -- The body was sent to the provider, under its secret, and what came of that may be retried.
  abbrev pub Retried : Provider → Value → Type 0
  Retried p body =
      (secret : String) × (resolve (credential_secret p.credential) ≡ ok secret)
      × MayRetry (
          http (
            call_of resolve http from_str status_text split_once p
              (auth_for p.kind p.credential secret) body))

  pub final {ℓ κ} :
      {A : Type ℓ} {B : Type κ} (r : Result A) (e : ProxyError)
      → FailsFinal r
      → r ≡ err e
      → e.is_retryable ≡ true
      → B
  final r e f h again = absurd (cc (f.at e h))

  transport-MayRetry :
      (sent : Sent) (e : ProxyError)
      → transport resolve http from_str status_text split_once sent ≡ err e
      → e.is_retryable ≡ true
      → MayRetry sent
  unfolding transport classify_transport
  transport-MayRetry (responded response) e h again = cc
  transport-MayRetry (broken_off error) e h again = elim (Bool-cases error.is_connect) [
    | inl yes' ↦ yes'
    | inr not_connect ↦ ground arith
  ]

  transport-ok :
      (sent : Sent) (response : HttpResponse)
      → transport resolve http from_str status_text split_once sent ≡ ok response
      → sent ≡ responded response
  unfolding transport
  transport-ok (responded other) response h = cc h
  transport-ok (broken_off error) response h = cc

  accept_status-MayRetry :
      (response : HttpResponse) (e : ProxyError)
      → accept_status resolve http from_str status_text split_once response ≡ err e
      → e.is_retryable ≡ true
      → MayRetry (responded response)
  unfolding accept_status
  accept_status-MayRetry response e h again = elim (Bool-cases (is_success response.status)) [
    | inl fine ↦ absurd (ground (arith, fine))
    | inr refused ↦ (retryable_status_iff response.status).0 (
        ground (
          arith,
          refused,
          is_retryable-classify_status from_str status_text response.status
              (unwrap_or response.text "") (and_then response.retry_after parse_u64),
        ))
  ]

  send-Retried :
      (p : Provider) (body : Value) (e : ProxyError)
      → ((s : SecretRef) → FailsFinal (resolve s))
      → send resolve http from_str status_text split_once p body ≡ err e
      → e.is_retryable ≡ true
      → Retried p body
  unfolding send apply_auth
  send-Retried p body e f h again =
      elim (bind-eq-err (apply_auth resolve http from_str status_text split_once p) _ h) [
        | inl no_auth ↦
            final (apply_auth resolve http from_str status_text split_once p) e
              (FailsFinal-bind (resolve (credential_secret p.credential)) _ (f _)
                (λ secret. FailsFinal-ok _))
              no_auth again
        | inr (auth, e1, h1) ↦
            let (secret, found, same) = >>=-eq-ok (resolve (credential_secret p.credential)) _ e1 in
            let this : auth_for p.kind p.credential secret ≡ auth = cc same in
            let call =
              call_of resolve http from_str status_text split_once p
                (auth_for p.kind p.credential secret) body in
            elim (bind-eq-err (transport resolve http from_str status_text split_once (http call)) _
              (rw (← this) at h1)) [
                | inl lost ↦ (secret, found, transport-MayRetry _ e lost again)
                | inr (response, e2, h2) ↦ (
                  secret,
                  found,
                  rw (transport-ok _ response e2) (accept_status-MayRetry response e h2 again),
                )
              ]
      ]

  pub decoded-FailsFinal :
      (body : Decoded) → FailsFinal (decoded resolve http from_str status_text split_once body)
  unfolding decoded
  decoded-FailsFinal (Decoded.parsed response) = FailsFinal-ok response
  decoded-FailsFinal (Decoded.unreadable message) = FailsFinal-err _ _

  -- From the built request on, whatever is made of a response.
  pub sent-Retried {ℓ} :
      {A : Type ℓ} (p : Provider) (body : Value) (after : HttpResponse → Result A) (e : ProxyError)
      → ((s : SecretRef) → FailsFinal (resolve s))
      → ((response : HttpResponse) → FailsFinal (after response))
      → (send resolve http from_str status_text split_once p body >>= after) ≡ err e
      → e.is_retryable ≡ true
      → Retried p body
  sent-Retried p body after e f g h again =
      elim (bind-eq-err (send resolve http from_str status_text split_once p body) after h) [
        | inl failed ↦ send-Retried p body e f failed again
        | inr (response, e1, h1) ↦ final (after response) e (g response) h1 again
      ]
