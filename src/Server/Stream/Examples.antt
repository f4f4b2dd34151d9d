-- ===== src/Server/Stream/Examples.antt =====
-- The reply of a provider, and a connection that breaks, as the client sees them.
use calude_proxy.Base.{◌≡◌, refl, ap, true, false, some, List, [], ◌∷◌, ◌++◌}
use calude_proxy.Error.{ok, err}
use calude_proxy.Anthropic.Encoder.{Frame}
use calude_proxy.Anthropic.Encoder.Unfinished.{unstopped}
use calude_proxy.Anthropic.Encoder.Client.{waiting, read}
use calude_proxy.Provider.Status.{TransportError, classify_transport}
use calude_proxy.Provider.Sse.{Delivery, broken, parse_sse, parse_from}
use calude_proxy.Provider.Sse.Examples.{same_chunk, no_error, reply, reply_parsed}
use calude_proxy.Server.Stream.{body, upstream_of, stream_error}
use calude_proxy.Server.Stream.Relay.{parse_sse-read}
use calude_proxy.Anthropic.Encoder.Client.Message.{message_of}
use calude_proxy.Server.Stream.Failed.{parse_sse-unstopped}

reply_ends : (parse_sse same_chunk no_error reply).result ≡ ok tt
reply_ends = ap (λ m. m.result) reply_parsed

parse_sse-read_example :
    let stream = parse_sse same_chunk no_error reply in
    read waiting (body "msg_1" "claude" "req_1" 5 (upstream_of stream.events stream.result))
    ≡ some (message_of stream.events)
parse_sse-read_example =
    parse_sse-read same_chunk no_error "msg_1" "claude" "req_1" 5 reply reply_ends

abbrev reset : TransportError
reset = record { is_connect = false; is_timeout = true; text = "" }

abbrev cut_short : List Delivery
cut_short = broken reset ∷ []

cut_short_fails : (parse_sse same_chunk no_error cut_short).result ≡ err (classify_transport reset)
unfolding parse_sse parse_from
cut_short_fails = refl

parse_sse-unstopped_example :
    let stream = parse_sse same_chunk no_error cut_short in
    (frames : List Frame) × (body "msg_1" "claude" "req_1" 5
        (upstream_of stream.events stream.result)
      ≡ frames ++ stream_error (classify_transport reset) "req_1" ∷ [])
    × (unstopped frames ≡ true)
parse_sse-unstopped_example =
    parse_sse-unstopped same_chunk no_error "msg_1" "claude" "req_1" 5 cut_short
      (classify_transport reset) cut_short_fails
