-- ===== src/Server/Stream/Recorded.antt =====
-- The stream that `Router::stream` of src/routing.rs puts between a provider and the server's loop,
-- which tells the circuit breaker how the provider's stream ended. The loop drops the stream after
-- a wait that is too long, an error or the end.
pub mod Examples
use calude_proxy.Base.{
  ℕ, ◌+◌, ◌≡◌, ◌⊎◌, inl, inr, refl, sym, ap, ◌∙◌, String, Bool, true, List, [], ◌∷◌, ◌++◌,
}
use mathlib.Core.List.{append_assoc}
use calude_proxy.Error.{ProxyError, ErrorKind, new}
use calude_proxy.Domain.{ProviderEvent}
use calude_proxy.Anthropic.Encoder.{Frame, StreamEncoder, start, encode}
use calude_proxy.Anthropic.Encoder.Quiet.{quiet, quiet-append, quiet-encode, quiet-start}
use calude_proxy.Provider.{Provider}
use calude_proxy.Routing.Circuits.{Circuits}
use calude_proxy.Routing.Attempts.{succeed, fail}
use calude_proxy.Server.Stream.{Upstream, arrived, failed, idle, body_stream, body, stream_error}

-- What the stream yields to the loop, and the circuits after it. `now` is the instant at which a
-- failure is recorded.
unfoldable pub relay : Provider → (now : ℕ) → List Upstream → Circuits → List Upstream × Circuits
relay p now [] circuits = ([], succeed p circuits)
relay p now (arrived event ∷ rest) circuits =
    let later = relay p now rest circuits in (arrived event ∷ later.0, later.1)
relay p now (failed e ∷ rest) circuits = (failed e ∷ [], fail p now e.kind circuits)
relay p now (idle ∷ rest) circuits = (idle ∷ [], circuits)

-- Frames that report one error, at their end.
abbrev pub ReportsLast : List Frame → ProxyError → String → Type 0
ReportsLast frames e request_id =
    (before : List Frame) × (frames ≡ before ++ stream_error e request_id ∷ [])
    × (quiet before ≡ true)

abbrev pub stalled : ProxyError
stalled = new ErrorKind.timeout "upstream stream idle timeout"

-- How what the provider's stream gives ends, as far as it is read.
pub data Outcome : Type 0 where
  ended : Outcome
  broke : ProxyError → Outcome
  waited : Outcome

pub outcome : List Upstream → Outcome
outcome [] = ended
outcome (arrived event ∷ rest) = outcome rest
outcome (failed e ∷ rest) = broke e
outcome (idle ∷ rest) = waited

-- The frames and the circuits that belong to an end.
abbrev pub Agrees : Provider → ℕ → Circuits → String → Outcome → List Frame → Circuits → Type 0
Agrees p now circuits request_id ended frames after =
    (after ≡ succeed p circuits) × (quiet frames ≡ true)
Agrees p now circuits request_id (broke e) frames after =
    (after ≡ fail p now e.kind circuits) × ReportsLast frames e request_id
Agrees p now circuits request_id waited frames after =
    (after ≡ circuits) × ReportsLast frames stalled request_id

ReportsLast-append :
    (xs frames : List Frame) (e : ProxyError) (request_id : String)
    → quiet xs ≡ true
    → ReportsLast frames e request_id
    → ReportsLast (xs ++ frames) e request_id
ReportsLast-append xs frames e request_id q (before, same, calm) = (
  xs ++ before,
  ap (λ fs. xs ++ fs) same ∙ sym (append_assoc xs before (stream_error e request_id ∷ [])),
  quiet-append xs before q calm,
)

module _ (p : Provider) (now : ℕ) (circuits : Circuits) (request_id : String) where
  Agrees-append :
      (end : Outcome) (xs frames : List Frame) (after : Circuits)
      → quiet xs ≡ true
      → Agrees p now circuits request_id end frames after
      → Agrees p now circuits request_id end (xs ++ frames) after
  Agrees-append ended xs frames after q (e, calm) = (e, quiet-append xs frames q calm)
  Agrees-append (broke e) xs frames after q (same, last) =
      (same, ReportsLast-append xs frames e request_id q last)
  Agrees-append waited xs frames after q (same, last) =
      (same, ReportsLast-append xs frames stalled request_id q last)

  body_stream-Agrees :
      (s : StreamEncoder) (upstream : List Upstream)
      → (body_stream s request_id (relay p now upstream circuits).0
          ≡ body_stream s request_id upstream)
        × Agrees p now circuits request_id
            (outcome upstream)
            (body_stream s request_id upstream)
            (relay p now upstream circuits).1
  unfolding body_stream relay quiet outcome
  body_stream-Agrees s [] = (refl, (refl, refl))
  body_stream-Agrees s (arrived event ∷ rest) =
      let (same, agrees) = body_stream-Agrees (encode s event).0 rest in
      (
        ap (λ fs. (encode s event).1 ++ fs) same,
        Agrees-append (outcome rest) (encode s event).1
            (body_stream (encode s event).0 request_id rest) (relay p now rest circuits).1
            (quiet-encode s event) agrees,
      )
  body_stream-Agrees s (failed e ∷ rest) = (refl, (refl, ([], refl, refl)))
  body_stream-Agrees s (idle ∷ rest) = (refl, (refl, ([], refl, refl)))

  -- The client sees the same events as without the router's stream between, and they agree with what
  -- is recorded: if the provider's stream comes to its end, a success is recorded and no event is
  -- `error`; if it fails, the failure is recorded, and the last event, and no other, reports it; if
  -- a wait is too long, nothing is recorded, and the last event, and no other, reports the timeout.
  pub body-Agrees :
      (message_id model : String) (input_tokens : ℕ) (upstream : List Upstream)
      → (body message_id model request_id input_tokens (relay p now upstream circuits).0
          ≡ body message_id model request_id input_tokens upstream)
        × Agrees p now circuits request_id
            (outcome upstream)
            (body message_id model request_id input_tokens upstream)
            (relay p now upstream circuits).1
  unfolding body
  body-Agrees message_id model input_tokens upstream =
      let opening = start message_id model input_tokens in
      let (same, agrees) = body_stream-Agrees opening.0 upstream in
      (
        ap (λ fs. opening.1 ++ fs) same,
        Agrees-append (outcome upstream) opening.1 (body_stream opening.0 request_id upstream)
            (relay p now upstream circuits).1 (quiet-start message_id model input_tokens) agrees,
      )
