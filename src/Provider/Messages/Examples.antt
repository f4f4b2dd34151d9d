-- ===== src/Provider/Messages/Examples.antt =====
-- A user message with a text and a failed tool result.
use calude_proxy.Base.{◌≡◌, refl, String, true, false, Option, none, some, List, [], ◌∷◌, ◌++◌, all}
use calude_proxy.Error.{ok}
use calude_proxy.Json.{Value, obj, string}
use calude_proxy.Domain.{NormalizedRequest, InputBlock, MessageRole}
use calude_proxy.Provider.Messages.{
  convert_messages, convert_user, add_blocks, add_block, joined_content, tool_message, role_message,
}
use calude_proxy.Provider.Messages.Total.{is_ok, fits, is_ok-convert_messages}
use calude_proxy.Provider.Messages.Results.{tool_messages, convert_user_results}

abbrev any_printer : Value → Option String
any_printer value = some "{}"

abbrev no_error : Value → String
no_error value = ""

abbrev blocks : List InputBlock
blocks = InputBlock.text "hello" ∷ InputBlock.tool_result "a" (string "gone") true ∷ []

abbrev request : NormalizedRequest
request = record {
  original_model = "haiku";
  max_tokens = 10;
  messages = record { role = MessageRole.user; blocks = blocks } ∷ [];
  temperature = none;
  top_p = none;
  stop_sequences = [];
  tools = [];
  tool_choice = none;
  stream = false;
}

is_ok-convert_messages_example :
    is_ok (convert_messages any_printer no_error request) ≡ all fits request.messages
is_ok-convert_messages_example =
    is_ok-convert_messages any_printer no_error (λ v. ("{}", refl)) request

abbrev converted : List Value
converted =
    tool_message "a" "Error: gone"
    ∷ obj (("role", string "user") ∷ ("content", string "hello") ∷ [])
    ∷ []

blocks_converted : convert_user "user" blocks ≡ ok converted
unfolding convert_user add_blocks add_block joined_content
blocks_converted = refl

convert_user_results_example :
    (content : List Value) × (converted ≡ tool_messages blocks ++ role_message "user" content)
convert_user_results_example = convert_user_results "user" blocks converted blocks_converted
