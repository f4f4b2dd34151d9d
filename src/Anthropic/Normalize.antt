-- ===== src/Anthropic/Normalize.antt =====
-- src/anthropic.rs, `normalize`: a request of the Anthropic protocol is checked and brought into the
-- neutral form. The counter of discarded hints is left out.
pub mod Bounds
pub mod Errors
pub mod Limits
pub mod Roles
pub mod WellFormed
pub mod Examples
pub mod Loose
use Prim.Native.Char.{code}
use Prim.Native.String
use calude_proxy.Base.{
  ℕ, ◌+◌, ◌^◌, String, Bool, true, false, not, Option, none, some, List, [], ◌∷◌, ◌++◌, length, any,
  all, is_empty, is_blank, one_of, byte_len, decimal, join, trims_to_nothing, ltb, leb, ◌==◌,
  if◌then◌else◌, ◌=?◌, ◌⧺◌, ◌&&◌, ◌||◌,
}
use calude_proxy.Error.{ProxyError, Result, ok, err, invalid, ok_or, reject_if, ◌>>=◌, ◌>>◌}
use calude_proxy.Json.{Value, F64, as_str, as_bool, is_object, get, keys, and_then, unwrap_or}
use calude_proxy.Domain.{
  AnthropicRequest, InputMessage, InputBlock, MessageRole, NormalizedMessage, NormalizedRequest,
  ToolDefinition, ToolChoice,
}
use calude_proxy.Anthropic.Fields.{required_str, ensure_only, each, is_hint, refuse_extensions}
use calude_proxy.Anthropic.Blocks.{parse_system, parse_content}
use calude_proxy.Anthropic.History.{validate_tool_history}

-- `(0.0..=1.0).contains(&x)`: 1.0 is 2^1074 units, and -0.0 is not less than 0.0.
unfoldable pub in_unit_range : F64 → Bool
in_unit_range x = (not x.negative || x.units == 0) && leb x.units (2 ^ 1074)

abbrev pub in_unit_range_or_default : Option F64 → Bool
in_unit_range_or_default none = true
in_unit_range_or_default (some x) = in_unit_range x

-- `filter(|key| key != "cache_control")`.
unknown_fields : List String → List String
unknown_fields [] = []
unknown_fields (key ∷ rest) =
    let more = unknown_fields rest in if is_hint key then more else key ∷ more

pub bad_stop_sequences : Option (List String) → Bool
bad_stop_sequences none = false
bad_stop_sequences (some sequences) = ltb 4 (length sequences) || any is_blank sequences

abbrev is_some {ℓ} : {A : Type ℓ} → Option A → Bool
is_some none = false
is_some (some a) = true

-- The guards at the head of `normalize`, in their order.
pub check_head : AnthropicRequest → Bool → Result (Unit {0})
unfolding bad_stop_sequences
check_head request strict = do
  reject_if (trims_to_nothing request.model) (invalid "model must not be empty")
  reject_if (is_empty request.messages) (invalid "messages must not be empty")
  reject_if (ltb 10000 (length request.messages)) (invalid "messages exceeds the 10000 item limit")
  reject_if (ltb 128 (length request.tools)) (invalid "tools exceeds the 128 item limit")
  reject_if (bad_stop_sequences request.stop_sequences)
      (invalid "stop_sequences must contain at most four non-empty strings")
  reject_if (request.max_tokens == 0)
      (invalid "max_tokens must be greater than zero for Chat Completions targets")
  refuse_extensions request.extensions
      ("unsupported request fields: " ⧺ join ", " (unknown_fields (keys request.extensions))) strict
  reject_if (is_some request.top_k)
      (invalid "top_k is not supported by configured Chat Completions targets")
  reject_if (not (in_unit_range_or_default request.temperature))
      (invalid "temperature must be between 0 and 1")
  reject_if (not (in_unit_range_or_default request.top_p)) (invalid "top_p must be between 0 and 1")

abbrev parse_role : String → ℕ → Result MessageRole
parse_role role index =
    if role =? "user"
    then ok MessageRole.user
    else if role =? "assistant"
    then ok MessageRole.assistant
    else if role =? "system"
    then ok MessageRole.system
    else err (invalid ("messages[" ⧺ decimal index ⧺ "].role must be user, assistant, or system"))

is_name_char : ℕ → Bool
is_name_char c =
    leb 48 c && leb c 57 || leb 65 c && leb c 90 || leb 97 c && leb c 122 || c == 95 || c == 45

pub all_name_chars : String → Bool
unfolding is_name_char
all_name_chars String.[] = true
all_name_chars (String.◌∷◌ c s) = is_name_char (code c) && all_name_chars s

-- The loop over the tools, from a set of names on; it ends with all of the names.
pub check_tool : Bool → List String → ToolDefinition → Result (List String)
check_tool strict names tool = do
  reject_if
      (is_blank tool.name
        || ltb 64 (byte_len tool.name)
        || not (all_name_chars tool.name)
        || one_of tool.name names)
      (invalid
        "tool names must be unique and contain 1-64 letters, digits, underscores, or hyphens")
  refuse_extensions tool.extensions ("tool " ⧺ tool.name ⧺ " contains unsupported fields") strict
  reject_if (not (is_object tool.input_schema))
      (invalid ("tool " ⧺ tool.name ⧺ " input_schema must be an object"))
  ok (tool.name ∷ names)

pub check_tools : Bool → List String → List ToolDefinition → Result (List String)
check_tools strict names [] = ok names
check_tools strict names (tool ∷ rest) =
    check_tool strict names tool >>= λ more. check_tools strict more rest

abbrev parallel_fields : List String
parallel_fields = "type" ∷ "disable_parallel_tool_use" ∷ []

pub parse_choice : Value → Bool → Result ToolChoice
parse_choice value strict =
    let disable_parallel =
      unwrap_or (and_then (get value "disable_parallel_tool_use") as_bool) false in
    do
      kind ← required_str value "type" "tool_choice"
      if kind =? "auto"
          then ensure_only value parallel_fields "tool_choice" strict
            >> ok (ToolChoice.auto disable_parallel)
          else if kind =? "any"
          then ensure_only value parallel_fields "tool_choice" strict
            >> ok (ToolChoice.any disable_parallel)
          else if kind =? "none"
          then ensure_only value ("type" ∷ []) "tool_choice" strict >> ok ToolChoice.never
          else if kind =? "tool"
          then ensure_only value ("type" ∷ "name" ∷ "disable_parallel_tool_use" ∷ []) "tool_choice"
              strict
            >> required_str value "name" "tool_choice"
            >>= (λ name. ok (ToolChoice.tool name disable_parallel))
          else err (invalid ("unsupported tool_choice type " ⧺ kind))

pub parse_tool_choice : Option Value → Bool → Result (Option ToolChoice)
parse_tool_choice none strict = ok none
parse_tool_choice (some value) strict = parse_choice value strict >>= λ choice. ok (some choice)

-- The two checks of `tool_choice` against the tools; the names are those of the tools.
pub check_choice : List String → Bool → Option ToolChoice → Result (Unit {0})
check_choice names no_tools (some (ToolChoice.tool name disable_parallel)) = do
  reject_if (not (one_of name names)) (invalid ("tool_choice references undefined tool " ⧺ name))
  reject_if no_tools (invalid "tool_choice requires at least one tool definition")
check_choice names no_tools (some (ToolChoice.any disable_parallel)) =
    reject_if no_tools (invalid "tool_choice requires at least one tool definition")
check_choice names no_tools _ = ok tt

-- The message that the system prompt becomes, if it has blocks.
abbrev pub system_message : List InputBlock → List NormalizedMessage
system_message [] = []
system_message (block ∷ rest) = record { role = MessageRole.system; blocks = block ∷ rest } ∷ []

abbrev pub parse_prompt : Option Value → Bool → Result (List NormalizedMessage)
parse_prompt none strict = ok []
parse_prompt (some system) strict =
    parse_system system strict >>= λ blocks. ok (system_message blocks)

module _ (base64_valid : String → Bool) (url_scheme : String → Option String) where
  pub parse_message : Bool → ℕ → InputMessage → Result NormalizedMessage
  parse_message strict index message = do
    role ← parse_role message.role index
    blocks ← parse_content base64_valid url_scheme message.content index strict
    ok (record { role = role; blocks = blocks })

  pub normalize : AnthropicRequest → (loose_validation : Bool) → Result NormalizedRequest
  normalize request loose_validation =
      let strict = not loose_validation in
      do
        check_head request strict
        prompt ← parse_prompt request.system strict
        parsed ← each (parse_message strict) 0 request.messages
        validate_tool_history (prompt ++ parsed)
        names ← check_tools strict [] request.tools
        tool_choice ← parse_tool_choice request.tool_choice strict
        check_choice names (is_empty request.tools) tool_choice
        ok (record {
          original_model = request.model;
          max_tokens = request.max_tokens;
          messages = prompt ++ parsed;
          temperature = request.temperature;
          top_p = request.top_p;
          stop_sequences = unwrap_or request.stop_sequences [];
          tools = request.tools;
          tool_choice = tool_choice;
          stream = request.stream;
        })
