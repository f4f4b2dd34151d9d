-- ===== src/Server/Stream/Relay.antt =====
-- From the provider's bytes to the client's message.
use calude_proxy.Base.{ℕ, ◌≡◌, refl, ap, String, Option, some, List, [], ◌∷◌, ◌++◌}
use calude_proxy.Error.{ok}
use calude_proxy.Json.{Value}
use calude_proxy.Domain.{ProviderEvent}
use calude_proxy.Anthropic.Encoder.{StreamEncoder, start, encode, encode_all}
use calude_proxy.Anthropic.Encoder.Client.{waiting, read}
use calude_proxy.Anthropic.Encoder.Client.Message.{message_of}
use calude_proxy.Anthropic.Encoder.Client.Reads.{encode_all_lem}
use calude_proxy.Provider.Sse.{Delivery, parse_sse}
use calude_proxy.Provider.Sse.Ending.{Ends, Yields, parse_sse-Yields}
use calude_proxy.Server.Stream.{body_stream, body, upstream_of}

body_stream-ok :
    (s : StreamEncoder) (request_id : String) (events : List ProviderEvent)
    → body_stream s request_id (upstream_of events (ok tt)) ≡ (encode_all s events).1
unfolding body_stream upstream_of encode_all
body_stream-ok s request_id [] = refl
body_stream-ok s request_id (event ∷ rest) =
    ap (λ frames. (encode s event).1 ++ frames) (body_stream-ok (encode s event).0 request_id rest)

read-Ends :
    (message_id model request_id : String) (input_tokens : ℕ) (events : List ProviderEvent)
    → Ends events
    → read waiting (body message_id model request_id input_tokens (upstream_of events (ok tt)))
      ≡ some (message_of events)
unfolding Ends body start
read-Ends message_id model request_id input_tokens events (before, reason, usage, split, quiet) =
    rw (body_stream-ok, split)
      (encode_all_lem message_id model input_tokens before reason usage quiet)

-- From end to end: whatever bytes the provider delivers, if its stream ends without an error, a client
-- of the Anthropic protocol can follow what the proxy sends it from `message_start` to
-- `message_stop`, and reads exactly the message that the provider's events add up to: their text,
-- their calls in the order of the indices with all of their arguments, the stop reason of the event
-- that finishes the stream, and the output tokens of the last usage that was reported.
pub parse_sse-read :
    (from_str : String → Option Value) (json_error : String → String)
    (message_id model request_id : String) (input_tokens : ℕ) (input : List Delivery)
    → let stream = parse_sse from_str json_error input in
      stream.result ≡ ok tt
      → read waiting
          (body message_id model request_id input_tokens (upstream_of stream.events stream.result))
        ≡ some (message_of stream.events)
parse_sse-read from_str json_error message_id model request_id input_tokens input h =
    let shape = parse_sse-Yields from_str json_error input in
    rw h (
      read-Ends message_id model request_id input_tokens
        (parse_sse from_str json_error input).events (unfold Yields in rw h at shape))
