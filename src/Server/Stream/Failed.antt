-- ===== src/Server/Stream/Failed.antt =====
-- The stream that a provider's error cuts short.
use calude_proxy.Base.{
  ◌≡◌, refl, sym, ap, ◌∙◌, ℕ, String, true, false, Option, List, [], ◌∷◌, ◌++◌, any,
}
use calude_proxy.Error.{ProxyError, err}
use calude_proxy.Json.{Value}
use calude_proxy.Domain.{ProviderEvent, is_finished}
use calude_proxy.Anthropic.Encoder.{Frame, StreamEncoder, start, encode, encode_all}
use calude_proxy.Anthropic.Encoder.Unfinished.{unstopped, encode_all-unstopped}
use calude_proxy.Provider.Sse.{Delivery, parse_sse}
use calude_proxy.Provider.Sse.Ending.{Yields, parse_sse-Yields}
use calude_proxy.Server.Stream.{body_stream, body, upstream_of, stream_error}
use mathlib.Core.List.{append_assoc}

body_stream-err :
    (s : StreamEncoder) (request_id : String) (events : List ProviderEvent) (e : ProxyError)
    → body_stream s request_id (upstream_of events (err e))
      ≡ (encode_all s events).1 ++ stream_error e request_id ∷ []
unfolding body_stream upstream_of encode_all
body_stream-err s request_id [] e = refl
body_stream-err s request_id (event ∷ rest) e =
    ap (λ frames. (encode s event).1 ++ frames)
      (body_stream-err (encode s event).0 request_id rest e)
    ∙ sym (
        append_assoc (encode s event).1 (encode_all (encode s event).0 rest).1
          (stream_error e request_id ∷ []))

-- A stream that fails is never taken for a whole message: if the provider's stream ends with an error,
-- what the proxy sends ends with the one event that reports it, and no event before that is
-- `message_stop`.
pub parse_sse-unstopped :
    (from_str : String → Option Value) (json_error : String → String)
    (message_id model request_id : String) (input_tokens : ℕ) (input : List Delivery)
    (e : ProxyError)
    → let stream = parse_sse from_str json_error input in
      stream.result ≡ err e
      → (frames : List Frame) × (body message_id model request_id input_tokens
            (upstream_of stream.events stream.result)
          ≡ frames ++ stream_error e request_id ∷ [])
        × (unstopped frames ≡ true)
unfolding body start Yields unstopped
parse_sse-unstopped from_str json_error message_id model request_id input_tokens input e h =
    let events = (parse_sse from_str json_error input).events in
    let s = (start message_id model input_tokens).0 in
    let quiet : any is_finished events ≡ false =
      (let shape = parse_sse-Yields from_str json_error input in rw h at shape) in
    (
      (start message_id model input_tokens).1 ++ (encode_all s events).1,
      rw h (
          ap (λ frames. (start message_id model input_tokens).1 ++ frames)
            (body_stream-err s request_id events e)),
      encode_all-unstopped s events quiet,
    )
