-- ===== src/Server/Stream.antt =====
-- The stream that `messages_inner` answers with, from the provider's bytes to the client's events.
pub mod Examples
pub mod Failed
pub mod Relay
pub mod Recorded
use calude_proxy.Base.{
  ℕ, ◌≡◌, refl, sym, ap, ◌∙◌, String, Bool, true, false, Option, none, some, List, [], ◌∷◌, ◌++◌,
  any,
}
use calude_proxy.Error.{ProxyError, ErrorKind, Result, ok, err, new, anthropic_type}
use calude_proxy.Json.{Value, string, obj}
use calude_proxy.Domain.{ProviderEvent, StopReason, Usage}
use calude_proxy.Anthropic.Encoder.{Frame, StreamEncoder, start, encode, encode_all}
use calude_proxy.Provider.Emits.{Emits}
use calude_proxy.Provider.Sse.{Delivery, parse_sse}

-- What a wait for the next event of the provider gives; the end of the list is its end.
pub data Upstream : Type 0 where
  arrived : ProviderEvent → Upstream
  failed : ProxyError → Upstream
  idle : Upstream

pub stream_error : ProxyError → String → Frame
stream_error error request_id = record {
  event = "error";
  payload = obj (
      ("type", string "error")
      ∷ (
        "error",
        obj (("type", string (anthropic_type error.kind)) ∷ ("message", string error.message) ∷ []),
      )
      ∷ ("request_id", string request_id)
      ∷ []);
}

-- The loop of the body's stream.
pub body_stream : StreamEncoder → String → List Upstream → List Frame
body_stream encoder request_id [] = []
body_stream encoder request_id (arrived event ∷ rest) =
    let (after, frames) = encode encoder event in frames ++ body_stream after request_id rest
body_stream encoder request_id (failed error ∷ rest) = stream_error error request_id ∷ []
body_stream encoder request_id (idle ∷ rest) =
    stream_error (new ErrorKind.timeout "upstream stream idle timeout") request_id ∷ []

-- The whole body, with what `StreamEncoder::new` sends first.
pub body : (message_id model request_id : String) (input_tokens : ℕ) → List Upstream → List Frame
body message_id model request_id input_tokens upstream =
    let (encoder, opening) = start message_id model input_tokens in
    opening ++ body_stream encoder request_id upstream

-- A provider's stream as the loop sees it, if no wait is too long.
abbrev error_of : Result (Unit {0}) → List Upstream
error_of (ok u) = []
error_of (err e) = failed e ∷ []

pub upstream_of : List ProviderEvent → Result (Unit {0}) → List Upstream
upstream_of [] r = error_of r
upstream_of (event ∷ rest) r = arrived event ∷ upstream_of rest r
