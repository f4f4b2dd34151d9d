-- ===== src/Anthropic/Normalize/Examples.antt =====
-- A request with a user's text and a tool.
use calude_proxy.Base.{
  ◌≡◌, refl, String, Bool, true, false, trims_to_nothing, is_whitespace, Option, none, some, [],
  ◌∷◌,
}
use calude_proxy.Anthropic.Fields.{each, refuse_extensions, is_hint}
use calude_proxy.Anthropic.Blocks.{parse_content}
use calude_proxy.Anthropic.History.{
  validate_tool_history, check_messages, check_blocks, check_block,
}
use calude_proxy.Error.{ok}
use calude_proxy.Json.{string, obj}
use calude_proxy.Domain.{
  AnthropicRequest, InputBlock, MessageRole, NormalizedRequest, ToolDefinition,
}
use calude_proxy.Anthropic.Normalize.{
  normalize, check_head, parse_message, check_tools, check_tool, all_name_chars, is_name_char,
  bad_stop_sequences, parse_tool_choice, check_choice,
}
use calude_proxy.Anthropic.Normalize.Loose.{normalize_loosens}
use calude_proxy.Anthropic.Normalize.WellFormed.{IsWellFormed, normalize-IsWellFormed}

abbrev pub any_base64 : String → Bool
any_base64 data' = true

abbrev pub https_only : String → Option String
https_only url = some "https"

abbrev pub tool_definition : ToolDefinition
tool_definition = record {
  name = "lookup";
  description = none;
  input_schema = obj (("type", string "object") ∷ []);
  extensions = [];
}

abbrev pub request : AnthropicRequest
request = record {
  model = "claude-sonnet-4";
  max_tokens = 100;
  messages = record { role = "user"; content = string "hello" } ∷ [];
  stream = false;
  system = none;
  temperature = none;
  top_p = none;
  top_k = none;
  stop_sequences = none;
  metadata = none;
  tools = tool_definition ∷ [];
  tool_choice = none;
  thinking = none;
  extensions = [];
}

abbrev normalized : NormalizedRequest
normalized = record {
  original_model = "claude-sonnet-4";
  max_tokens = 100;
  messages = record { role = MessageRole.user; blocks = InputBlock.text "hello" ∷ [] } ∷ [];
  temperature = none;
  top_p = none;
  stop_sequences = [];
  tools = tool_definition ∷ [];
  tool_choice = none;
  stream = false;
}

-- It is accepted in both modes.
request_accepted : (loose : Bool) → normalize any_base64 https_only request loose ≡ ok normalized
unfolding normalize check_head parse_message check_tools check_tool all_name_chars is_name_char
    bad_stop_sequences parse_tool_choice check_choice parse_content validate_tool_history
    check_messages check_blocks check_block each refuse_extensions is_hint trims_to_nothing
    is_whitespace
request_accepted true = refl
request_accepted false = refl

normalize_loosens_example : normalize any_base64 https_only request true ≡ ok normalized
normalize_loosens_example =
    normalize_loosens any_base64 https_only request normalized (request_accepted false)

normalize-IsWellFormed_example : IsWellFormed request normalized
normalize-IsWellFormed_example =
    normalize-IsWellFormed any_base64 https_only request false normalized (request_accepted false)
