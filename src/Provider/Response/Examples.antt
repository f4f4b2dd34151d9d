-- ===== src/Provider/Response/Examples.antt =====
-- A reply with a text and one call.
use calude_proxy.Base.{◌≡◌, refl, String, Option, none, some, [], ◌∷◌}
use calude_proxy.Error.{ok}
use calude_proxy.Json.{Value, obj}
use calude_proxy.Domain.{AnthropicResponse, OutputBlock, as_str}
use calude_proxy.Provider.Response.{
  OpenAiResponse, convert_response, parse_calls, response_content, text_block, tool_blocks,
  map_stop_reason,
}
use calude_proxy.Provider.Response.Content.{Converted, convert_response_lem}

abbrev empty_object : String → Option Value
empty_object text = some (obj [])

abbrev reply : OpenAiResponse
reply = record {
  id = "chatcmpl_1";
  choices =
      record {
        message = record {
          content = some "Looking.";
          refusal = none;
          tool_calls =
              record { id = "call_1"; function = record { name = "lookup"; arguments = "{}" } }
              ∷ [];
        };
        finish_reason = some "tool_calls";
      }
      ∷ [];
  usage = some (record { prompt_tokens = 5; completion_tokens = 2 });
}

abbrev message : AnthropicResponse
message = record {
  id = "chatcmpl_1";
  kind = "message";
  role = "assistant";
  model = "haiku";
  content = OutputBlock.text "Looking." ∷ OutputBlock.tool_use "call_1" "lookup" (obj []) ∷ [];
  stop_reason = some "tool_use";
  stop_sequence = none;
  usage = record { input_tokens = 5; output_tokens = 2 };
}

reply_converted : convert_response empty_object reply "haiku" ≡ ok message
unfolding convert_response parse_calls response_content text_block tool_blocks map_stop_reason
    as_str
reply_converted = refl

convert_response_lem_example : Converted empty_object reply "haiku" message
convert_response_lem_example =
    convert_response_lem empty_object reply "haiku" message reply_converted
