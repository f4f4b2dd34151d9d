-- ===== src/Routing/Attempts.antt =====
-- The loops of `Router::execute` and `Router::stream` over the candidates of src/routing.rs. What a
-- target answers in the `i`-th attempt is a parameter, and so is the instant at which its failure
-- is recorded. An `elapsed` attempt is one that `tokio::time::timeout` has cut off.
pub mod Examples
pub mod Verdict
use calude_proxy.Base.{
  ℕ, suc, ◌+◌, String, Bool, true, false, Option, none, some, List, [], ◌∷◌, ◌++◌, take,
  if◌then◌else◌,
}
use calude_proxy.Error.{ProxyError, ErrorKind, Result, ok, err, new}
use calude_proxy.Provider.{Provider}
use calude_proxy.Provider.Circuit.{CircuitState, record_success, record_failure}
use calude_proxy.Routing.Circuits.{Circuits, update}
use calude_proxy.Routing.Order.{Candidate}
use calude_proxy.Routing.Candidates.{Ready}

pub data Outcome {ℓ} (A : Type ℓ) : Type ℓ where
  answered : A → Outcome A
  failed : ProxyError → Outcome A
  elapsed : Outcome A

-- `provider.record_success()` and `provider.record_failure(&error)` on the shared store.
pub succeed : Provider → Circuits → Circuits
succeed p circuits = update circuits p.id (record_success (circuits p.id))

pub fail : Provider → ℕ → ErrorKind → Circuits → Circuits
fail p now kind circuits =
    update circuits p.id (record_failure p.failure_threshold p.cooldown now kind (circuits p.id))

-- `errors.pop()`, or the error for no attempt; the newest error stands first.
abbrev pub last_error : List ProxyError → ProxyError
last_error [] = new ErrorKind.overloaded "no healthy target is available"
last_error (e ∷ older) = e

module _ {ℓ} {A : Type ℓ} (outcome : ℕ → Candidate Ready → Outcome A) (clock : ℕ → ℕ)
    (on_success : Provider → Circuits → Circuits) (timeout_message : String) where
  -- The `for`, from `attempt` on.
  pub attempts :
      ℕ → List (Candidate Ready) → (errors : List ProxyError) → Circuits → Circuits × Result A
  attempts attempt [] errors circuits = (circuits, err (last_error errors))
  attempts attempt (c ∷ rest) errors circuits =
      let p = c.payload.provider in
      elim (outcome attempt c) [
        | answered a ↦ (on_success p circuits, ok a)
        | failed e ↦
            let after = fail p (clock attempt) e.kind circuits in
            let next = attempts (attempt + 1) rest (e ∷ errors) after in
            if e.is_retryable then next else (after, err e)
        | elapsed ↦
            let e = new ErrorKind.timeout timeout_message in
            (fail p (clock attempt) e.kind circuits, err e)
      ]

-- `Router::execute` and `Router::stream` on their candidates: a stream records its success at its
-- end, and not when it is established.
module _ {ℓ} {A : Type ℓ} (outcome : ℕ → Candidate Ready → Outcome A) (clock : ℕ → ℕ)
    (max_attempts : ℕ) where
  pub execute : List (Candidate Ready) → Circuits → Circuits × Result A
  execute candidates circuits =
      attempts outcome clock succeed "upstream request timed out" 0 (take max_attempts candidates)
        [] circuits

  pub stream : List (Candidate Ready) → Circuits → Circuits × Result A
  stream candidates circuits =
      attempts outcome clock (λ p c. c) "upstream stream establishment timed out" 0
        (take max_attempts candidates) [] circuits
