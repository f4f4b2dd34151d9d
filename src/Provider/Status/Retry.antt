-- ===== src/Provider/Status/Retry.antt =====
-- Which failures are retried, and which of them count against the provider.
use Prim.Native.String.{count}
use text.Mathlib.TextLemmas.{length-append, length-cons, length-nil}
use calude_proxy.Base.{
  ℕ, zero, suc, ◌≤◌, String, true, not, Option, ◌==◌, ◌≡◌, refl, ◌≢◌, ◌↔◌, ◌⊎◌, arith,
}
use calude_proxy.Error.{ErrorKind}
use calude_proxy.Json.{Value}
use calude_proxy.Provider.Circuit.{counts}
use calude_proxy.Provider.Status.{
  truncate, status_kind, retryable_status, provider_message, classify_status,
}

-- Exactly these statuses of the target are retried with the next one.
pub retryable_status_iff :
    (status : ℕ)
    → (retryable_status status ≡ true) ↔ (
        (status ≡ 408)
        ⊎ (status ≡ 429)
        ⊎ (status ≡ 500)
        ⊎ (status ≡ 502)
        ⊎ (status ≡ 503)
        ⊎ (status ≡ 504)
        ⊎ (status ≡ 529))
unfolding retryable_status
retryable_status_iff status = ground arith

-- A retryable status that spares the circuit breaker is 429; every other one counts against it.
retry_spares :
    (status : ℕ)
    → retryable_status status ≡ true
    → counts (status_kind status) ≡ not (status == 429)
unfolding retryable_status status_kind counts
retry_spares status h = ground arith

blames_not :
    (status : ℕ) → retryable_status status ≡ true → status_kind status ≢ ErrorKind.invalid_request
unfolding retryable_status status_kind
blames_not status h = ground arith

count-truncate : (s : String) (max : ℕ) → count (truncate s max) ≤ max
unfolding truncate
count-truncate String.[] max = omega (arith, length-nil)
count-truncate (String.◌∷◌ c rest) zero = omega (arith, length-nil)
count-truncate (String.◌∷◌ c rest) (suc max) =
    omega (arith, length-cons c (truncate rest max), count-truncate rest max)

module _ (from_str : String → Option Value) (status_text : ℕ → String) where
  pub is_retryable-classify_status :
      (status : ℕ) (body : String) (retry_after : Option ℕ)
      → (classify_status from_str status_text status body retry_after).is_retryable
        ≡ retryable_status status
  unfolding classify_status
  is_retryable-classify_status status body retry_after = refl

  -- The error for a status of the target is retryable exactly for 408, 429, 500, 502, 503, 504 and
  -- 529.
  pub classify_status_retryable :
      (status : ℕ) (body : String) (retry_after : Option ℕ)
      → ((classify_status from_str status_text status body retry_after).is_retryable ≡ true) ↔ (
          (status ≡ 408)
          ⊎ (status ≡ 429)
          ⊎ (status ≡ 500)
          ⊎ (status ≡ 502)
          ⊎ (status ≡ 503)
          ⊎ (status ≡ 504)
          ⊎ (status ≡ 529))
  unfolding classify_status
  classify_status_retryable status body retry_after = retryable_status_iff status

  -- A retryable error for a status of the target never blames the request, and it counts against
  -- the circuit breaker exactly if the status is not 429.
  pub classify_status-counts :
      (status : ℕ) (body : String) (retry_after : Option ℕ)
      → (classify_status from_str status_text status body retry_after).is_retryable ≡ true
      → ((classify_status from_str status_text status body retry_after).kind
          ≢ ErrorKind.invalid_request)
        × (counts (classify_status from_str status_text status body retry_after).kind
            ≡ not (status == 429))
  unfolding classify_status
  classify_status-counts status body retry_after h = (blames_not status h, retry_spares status h)

  -- The message keeps at most 512 characters of what the target said, behind 27 of its own.
  pub classify_status_message :
      (status : ℕ) (body : String) (retry_after : Option ℕ)
      → count (classify_status from_str status_text status body retry_after).message ≤ 539
  unfolding classify_status
  classify_status_message status body retry_after =
      let shown = truncate (provider_message from_str status_text status body) 512 in
      omega (
        arith,
        length-append "upstream rejected request: " shown,
        count-truncate (provider_message from_str status_text status body) 512,
      )
