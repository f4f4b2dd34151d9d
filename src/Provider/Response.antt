-- ===== src/Provider/Response.antt =====
-- The replies of src/provider.rs: `convert_response` and `map_stop_reason`, with `response_content`
-- of src/anthropic.rs. `from_str` stands for `serde_json::from_str`.
pub mod Content
pub mod Examples
pub mod Failures
use calude_proxy.Base.{
  ℕ, String, Bool, true, false, not, Option, none, some, List, [], ◌∷◌, ◌++◌, is_blank, ◌=?◌,
  if◌then◌else◌, ◌⧺◌,
}
use calude_proxy.Error.{Result, ok, err, new, ErrorKind, ok_or, ◌>>=◌}
use calude_proxy.Json.{Value, unwrap_or}
use calude_proxy.Domain.{AnthropicResponse, OutputBlock, StopReason, Usage, as_str}

pub record OpenAiFunction : Type 0 where
  pub name : String
  pub arguments : String

pub record OpenAiToolCall : Type 0 where
  pub id : String
  pub function : OpenAiFunction

pub record OpenAiMessage : Type 0 where
  pub content : Option String
  pub refusal : Option String
  pub tool_calls : List OpenAiToolCall

pub record OpenAiChoice : Type 0 where
  pub message : OpenAiMessage
  pub finish_reason : Option String

pub record OpenAiUsage : Type 0 where
  pub prompt_tokens : ℕ
  pub completion_tokens : ℕ

pub record OpenAiResponse : Type 0 where
  pub id : String
  pub choices : List OpenAiChoice
  pub usage : Option OpenAiUsage

-- `map_stop_reason` on a reason that is there.
unfoldable pub map_reason : String → Result StopReason
map_reason reason =
    if reason =? "stop"
    then ok StopReason.end_turn
    else if reason =? "length"
    then ok StopReason.max_tokens
    else if reason =? "tool_calls"
    then ok StopReason.tool_use
    else if reason =? "function_call"
    then ok StopReason.tool_use
    else if reason =? "content_filter"
    then ok StopReason.refusal
    else err (new ErrorKind.upstream ("unknown provider finish reason " ⧺ reason))

unfoldable pub map_stop_reason : Option String → Result StopReason
unfolding map_reason
map_stop_reason none = ok StopReason.end_turn
map_stop_reason (some reason) = map_reason reason

-- A tool call as the source's tuple: id, name, input.
pub record ToolCall : Type 0 where
  pub id : String
  pub name : String
  pub input : Value

pub tool_blocks : List ToolCall → List OutputBlock
tool_blocks [] = []
tool_blocks (c ∷ rest) = OutputBlock.tool_use c.id c.name c.input ∷ tool_blocks rest

pub text_block : Option String → List OutputBlock
text_block none = []
text_block (some t) = if is_blank t then [] else OutputBlock.text t ∷ []

abbrev pub at_least_one : List OutputBlock → List OutputBlock
at_least_one [] = OutputBlock.text "" ∷ []
at_least_one (b ∷ rest) = b ∷ rest

-- `response_content` of anthropic.rs.
pub response_content : Option String → List ToolCall → List OutputBlock
response_content text tools = at_least_one (text_block text ++ tool_blocks tools)

-- `choice.message.content`, or else the refusal.
abbrev pub shown_text : OpenAiMessage → Option String
shown_text m = elim m.content [ none ↦ m.refusal | some t ↦ some t ]

abbrev convert_usage : Option OpenAiUsage → Usage
convert_usage none = record { input_tokens = 0; output_tokens = 0 }
convert_usage (some u) = record {
  input_tokens = u.prompt_tokens;
  output_tokens = u.completion_tokens;
}

abbrev pub first_choice : List OpenAiChoice → Result OpenAiChoice
first_choice [] = err (new ErrorKind.upstream "provider response contains no choices")
first_choice (c ∷ rest) = ok c

module _ (from_str : String → Option Value) where
  pub parse_calls : List OpenAiToolCall → Result (List ToolCall)
  parse_calls [] = ok []
  parse_calls (call ∷ rest) = do
    input ←
        ok_or (from_str call.function.arguments)
          (new ErrorKind.upstream "provider returned invalid tool-call JSON")
    others ← parse_calls rest
    ok (record { id = call.id; name = call.function.name; input = input } ∷ others)

  pub convert_response : OpenAiResponse → (model : String) → Result AnthropicResponse
  convert_response response model = do
    choice ← first_choice response.choices
    tools ← parse_calls choice.message.tool_calls
    reason ← map_stop_reason choice.finish_reason
    ok (record {
      id = response.id;
      kind = "message";
      role = "assistant";
      model = model;
      content = response_content (shown_text choice.message) tools;
      stop_reason = some (as_str reason);
      stop_sequence = none;
      usage = convert_usage response.usage;
    })
