-- ===== src/Provider/Sse/Examples.antt =====
-- A reply of two lines, one with a chunk and one with the end marker, whose bytes come in two pieces.
-- Every text parses as the same chunk.
use calude_proxy.Base.{
  ℕ, ◌≡◌, refl, String, Option, none, some, List, [], ◌∷◌, ◌++◌, map, strip_prefix, trim_start,
  trim_end, is_whitespace, from_utf8,
}
use calude_proxy.Error.{ok}
use calude_proxy.Json.{Value, string, obj, arr}
use calude_proxy.Domain.{ProviderEvent, StopReason}
use calude_proxy.Provider.Emits.{◌>>=◌}
use calude_proxy.Provider.Response.{map_stop_reason}
use calude_proxy.Provider.Sse.{
  Delivery, bytes, parse_sse, parse_from, split_lines, on_lines, on_line, strip_cr, on_data,
  on_chunk, on_usage, chunk_usage, on_choices, on_choice, on_content, on_calls, on_reason, finish,
  validate_streamed_tools,
}
use calude_proxy.Provider.Sse.Chunks.{concat, parse_sse-chunks}
use calude_proxy.Provider.Sse.Ending.{Yields, parse_sse-Yields}

abbrev pub chunk : Value
chunk = obj (
    (
      "choices",
      arr (
          obj
            (("delta", obj (("content", string "hi") ∷ [])) ∷ ("finish_reason", string "stop") ∷ [])
          ∷ []),
    )
    ∷ [])

abbrev pub same_chunk : String → Option Value
same_chunk text = some chunk

abbrev pub no_error : String → String
no_error text = ""

abbrev first_part : List ℕ
first_part = 100 ∷ 97 ∷ 116 ∷ 97 ∷ 58 ∷ 120 ∷ 10 ∷ 100 ∷ []

abbrev second_part : List ℕ
second_part = 97 ∷ 116 ∷ 97 ∷ 58 ∷ 91 ∷ 68 ∷ 79 ∷ 78 ∷ 69 ∷ 93 ∷ 10 ∷ []

abbrev pub reply : List Delivery
reply = bytes first_part ∷ bytes second_part ∷ []

abbrev reply_events : List ProviderEvent
reply_events = ProviderEvent.text "hi" ∷ ProviderEvent.finished StopReason.end_turn none ∷ []

pub reply_parsed :
    parse_sse same_chunk no_error reply ≡ record { events = reply_events; result = ok tt }
unfolding parse_sse parse_from split_lines on_lines on_line strip_cr on_data on_chunk on_usage
    chunk_usage on_choices on_choice on_content on_calls on_reason finish validate_streamed_tools
    ◌>>=◌ strip_prefix trim_start trim_end is_whitespace from_utf8 map_stop_reason
reply_parsed = refl

parse_sse-chunks_example :
    parse_sse same_chunk no_error (map bytes (first_part ∷ second_part ∷ []) ++ [])
    ≡ parse_sse same_chunk no_error (bytes (concat (first_part ∷ second_part ∷ [])) ∷ [])
parse_sse-chunks_example = parse_sse-chunks same_chunk no_error first_part (second_part ∷ []) []

parse_sse-Yields_example :
    Yields (parse_sse same_chunk no_error reply).events (parse_sse same_chunk no_error reply).result
parse_sse-Yields_example = parse_sse-Yields same_chunk no_error reply
