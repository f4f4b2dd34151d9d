-- ===== src/Provider/Calls/Retried.antt =====
-- Which failures of a call may be retried with another target.
use calude_proxy.Base.{◌≡◌, ℕ, String, Bool, true, false, Option, inl, inr}
use calude_proxy.Error.{ProxyError, Result, ok, err, ◌>>=◌}
use calude_proxy.Error.Final.{FailsFinal, FailsFinal-ok, FailsFinal-bind, FailsInvalid-FailsFinal}
use calude_proxy.Json.{Value}
use calude_proxy.Domain.{NormalizedRequest, AnthropicResponse}
use calude_proxy.Config.{SecretRef}
use calude_proxy.Config.Secrets.{resolve_secret}
use calude_proxy.Config.Secrets.Failures.{resolve_secret-FailsFinal}
use calude_proxy.Provider.Emits.{Emits}
use calude_proxy.Provider.{Provider}
use calude_proxy.Provider.Adapt.{adapt_request}
use calude_proxy.Provider.Adapt.Refusals.{adapt_request-FailsInvalid}
use calude_proxy.Provider.Body.{build_request}
use calude_proxy.Provider.Body.Refusals.{build_request-FailsInvalid}
use calude_proxy.Provider.Response.Failures.{convert_response-FailsFinal}
use calude_proxy.Provider.Calls.{HttpRequest, HttpResponse, Sent, send, decoded, execute, stream}
use calude_proxy.Provider.Calls.Delivered.{
  bind-eq-err, final, Retried, sent-Retried, decoded-FailsFinal,
}

module _ (resolve : SecretRef → Result String) (http : HttpRequest → Sent)
    (from_str : String → Option Value) (status_text : ℕ → String)
    (split_once : String → Option (String × String)) where
  module _ (to_string : Value → Option String) (print_error : Value → String) where
    -- The request adapted to the provider, and the body that says it to the provider's model: this
    -- is what was sent.
    abbrev pub SentAndRetried : Provider → NormalizedRequest → String → Bool → Type 0
    SentAndRetried p request model streaming =
        (adapted : NormalizedRequest) × (body : Value) × (adapt_request to_string p.capabilities
            request
          ≡ ok adapted)
        × (build_request to_string print_error p.capabilities adapted model streaming ≡ ok body)
        × Retried resolve http from_str status_text split_once p body

    built-Retried {ℓ} :
        {A : Type ℓ} (p : Provider) (request : NormalizedRequest) (model : String)
        (streaming : Bool) (after : HttpResponse → Result A) (e : ProxyError)
        → ((s : SecretRef) → FailsFinal (resolve s))
        → ((response : HttpResponse) → FailsFinal (after response))
        → (adapt_request to_string p.capabilities request >>= λ adapted.
            build_request to_string print_error p.capabilities adapted model streaming >>= λ body.
            send resolve http from_str status_text split_once p body >>= after)
          ≡ err e
        → e.is_retryable ≡ true
        → SentAndRetried p request model streaming
    built-Retried p request model streaming after e f g h again =
        elim (bind-eq-err (adapt_request to_string p.capabilities request) _ h) [
          | inl unfit ↦
              final resolve http from_str status_text split_once
                (adapt_request to_string p.capabilities request) e
                (FailsInvalid-FailsFinal _
                  (adapt_request-FailsInvalid to_string p.capabilities request))
                unfit again
          | inr (adapted, e1, h1) ↦
              elim (bind-eq-err
                (build_request to_string print_error p.capabilities adapted model streaming) _ h1) [
                  | inl unbuilt ↦
                      final resolve http from_str status_text split_once
                        (build_request to_string print_error p.capabilities adapted model streaming)
                        e
                        (FailsInvalid-FailsFinal _ (
                          build_request-FailsInvalid to_string print_error p.capabilities adapted
                            model streaming))
                        unbuilt again
                  | inr (body, e2, h2) ↦ (
                    adapted,
                    body,
                    e1,
                    e2,
                    sent-Retried resolve http from_str status_text split_once p body after e f g h2
                        again,
                  )
                ]
        ]

-- A call, streaming or not, ends in the error.
abbrev Failed : Result AnthropicResponse → Result (Emits (Unit {0})) → Bool → ProxyError → Type 0
Failed executed established false e = executed ≡ err e
Failed executed established true e = established ≡ err e

module _ (env_var read_to_string : String → Option String) (io_error : String → String)
    (http : HttpRequest → Sent) (from_str : String → Option Value) (status_text : ℕ → String)
    (split_once : String → Option (String × String)) (to_string : Value → Option String)
    (print_error : Value → String) where
  abbrev secrets : SecretRef → Result String
  secrets = resolve_secret env_var read_to_string io_error

  -- An error of `execute`, or of establishing a `stream`, that may be retried with another target
  -- comes from a request that was sent, with the body built from the request as adapted to the
  -- provider, for the model and in the mode of the call, and under the secret of the provider: it
  -- found no connection, or was answered with status 408, 429, 500, 502, 503, 504 or 529. So a
  -- request that cannot be adapted, built or authenticated (an unreadable secret included) is not
  -- tried elsewhere, nor one that a target has answered with success, however unusable the answer.
  pub execute-Retried :
      (json_error : String → String) (p : Provider) (request : NormalizedRequest) (model : String)
      (streaming : Bool) (e : ProxyError)
      → e.is_retryable ≡ true
      → Failed
          (execute secrets http from_str status_text split_once to_string print_error p request
            model)
          (stream secrets http from_str status_text split_once to_string print_error json_error p
            request model)
          streaming
          e
      → SentAndRetried secrets http from_str status_text split_once to_string print_error p request
          model streaming
  unfolding execute stream
  execute-Retried json_error p request model false e again h =
      built-Retried secrets http from_str status_text split_once to_string print_error p request
        model false _ e (resolve_secret-FailsFinal env_var read_to_string io_error)
        (λ response.
          FailsFinal-bind (decoded secrets http from_str status_text split_once response.json) _
            (decoded-FailsFinal secrets http from_str status_text split_once response.json)
            (λ reply. convert_response-FailsFinal from_str reply request.original_model))
        h again
  execute-Retried json_error p request model true e again h =
      built-Retried secrets http from_str status_text split_once to_string print_error p request
        model true _ e (resolve_secret-FailsFinal env_var read_to_string io_error)
        (λ response. FailsFinal-ok _) h again
