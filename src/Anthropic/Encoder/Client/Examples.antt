-- ===== src/Anthropic/Encoder/Client/Examples.antt =====
-- A text in two pieces, and a call whose arguments come in two pieces.
use calude_proxy.Base.{◌≡◌, refl, none, some, List, [], ◌∷◌, ◌++◌}
use calude_proxy.Domain.{ProviderEvent, StopReason, is_finished}
use calude_proxy.Anthropic.Encoder.{start, encode_all}
use calude_proxy.Anthropic.Encoder.Client.{waiting, complete, read, Block}
use calude_proxy.Anthropic.Encoder.Client.Message.{
  message_of, spoken, call_after, call_at, bound, calls_from, reported, spelling, stopped_by,
  content_of,
}
use calude_proxy.Anthropic.Encoder.Client.Reads.{encode_all_lem}

abbrev pieces : List ProviderEvent
pieces =
    ProviderEvent.text "Hel"
    ∷ ProviderEvent.tool_start 0 "call_1" "lookup"
    ∷ ProviderEvent.tool_delta 0 "{\"q\":"
    ∷ ProviderEvent.text "lo"
    ∷ ProviderEvent.tool_delta 0 "1}"
    ∷ []

encode_all_lem_example :
    let (s, opening) = start "msg_1" "claude" 7 in
    let every = pieces ++ ProviderEvent.finished StopReason.tool_use none ∷ [] in
    read waiting (opening ++ (encode_all s every).1) ≡ some (message_of every)
unfolding is_finished
encode_all_lem_example = encode_all_lem "msg_1" "claude" 7 pieces StopReason.tool_use none refl

-- The message for the pieces, written out.
pieces_say :
    message_of (pieces ++ ProviderEvent.finished StopReason.tool_use none ∷ [])
    ≡ complete (Block.text "Hello" ∷ Block.tool_use "call_1" "lookup" "{\"q\":1}" ∷ []) "tool_use" 0
unfolding spoken call_after call_at bound calls_from reported spelling stopped_by content_of
pieces_say = refl
