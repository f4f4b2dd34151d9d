-- ===== src/Anthropic/Normalize/Errors.antt =====
-- The errors of `normalize`.
use calude_proxy.Base.{ℕ, ◌≡◌, String, Bool, false, Option, none, some, List, [], ◌∷◌}
use calude_proxy.Error.{ProxyError, err, invalid, status}
use calude_proxy.Error.Invalid.{FailsInvalid, FailsInvalid-bind}
use calude_proxy.Json.{Value}
use calude_proxy.Domain.{AnthropicRequest, InputMessage, ToolDefinition, ToolChoice}
use calude_proxy.Anthropic.Fields.Loosens.{parser_fails}
use calude_proxy.Anthropic.Blocks.Loose.{parse_system_fails, parse_content_fails}
use calude_proxy.Anthropic.History.Errors.{validate_tool_history_fails}
use calude_proxy.Anthropic.Normalize.{
  check_head, check_tool, check_tools, parse_choice, parse_tool_choice, check_choice, parse_message,
  parse_prompt, normalize,
}

check_head_fails :
    (request : AnthropicRequest) (strict : Bool) → FailsInvalid (check_head request strict)
unfolding check_head
check_head_fails request strict = search (parser_fails) depth 60

check_tool_fails :
    (strict : Bool) (names : List String) (tool : ToolDefinition)
    → FailsInvalid (check_tool strict names tool)
unfolding check_tool
check_tool_fails strict names tool = search (parser_fails) depth 40

check_tools_fails :
    (strict : Bool) (names : List String) (tools : List ToolDefinition)
    → FailsInvalid (check_tools strict names tools)
unfolding check_tools
check_tools_fails strict names [] = search (parser_fails)
check_tools_fails strict names (tool ∷ rest) =
    FailsInvalid-bind (check_tool strict names tool) (λ more. check_tools strict more rest)
      (check_tool_fails strict names tool) (λ more. check_tools_fails strict more rest)

parse_choice_fails : (value : Value) (strict : Bool) → FailsInvalid (parse_choice value strict)
unfolding parse_choice
parse_choice_fails value strict = search (parser_fails) depth 40

parse_tool_choice_fails :
    (value : Option Value) (strict : Bool) → FailsInvalid (parse_tool_choice value strict)
unfolding parse_tool_choice
parse_tool_choice_fails none strict = search (parser_fails)
parse_tool_choice_fails (some value) strict = search (parser_fails, parse_choice_fails) depth 20

check_choice_fails :
    (names : List String) (no_tools : Bool) (choice : Option ToolChoice)
    → FailsInvalid (check_choice names no_tools choice)
unfolding check_choice
check_choice_fails names no_tools none = search (parser_fails)
check_choice_fails names no_tools (some (ToolChoice.tool name d)) = search (parser_fails) depth 20
check_choice_fails names no_tools (some (ToolChoice.any d)) = search (parser_fails) depth 20
check_choice_fails names no_tools (some _) = search (parser_fails)

parse_prompt_fails :
    (system : Option Value) (strict : Bool) → FailsInvalid (parse_prompt system strict)
parse_prompt_fails none strict = search (parser_fails)
parse_prompt_fails (some system) strict = search (parser_fails, parse_system_fails) depth 20

module _ (base64_valid : String → Bool) (url_scheme : String → Option String) where
  parse_message_fails :
      (strict : Bool) (index : ℕ) (message : InputMessage)
      → FailsInvalid (parse_message base64_valid url_scheme strict index message)
  unfolding parse_message
  parse_message_fails strict index message = search (parser_fails, parse_content_fails) depth 20

  normalize_fails :
      (request : AnthropicRequest) (loose_validation : Bool)
      → FailsInvalid (normalize base64_valid url_scheme request loose_validation)
  unfolding normalize
  normalize_fails request loose_validation =
      search
        (
          parser_fails, check_head_fails, parse_prompt_fails, parse_message_fails,
          validate_tool_history_fails, check_tools_fails, parse_tool_choice_fails,
          check_choice_fails,
        )
        depth 40

  -- A request that is refused is refused with status 400 and no retry: each error of `normalize`, in
  -- either mode, is one that `ProxyError::invalid` makes of its message.
  pub normalize_refuses :
      (request : AnthropicRequest) (loose_validation : Bool) (e : ProxyError)
      → normalize base64_valid url_scheme request loose_validation ≡ err e
      → (e ≡ invalid e.message) × (status e.kind ≡ 400) × (e.is_retryable ≡ false)
  unfolding status
  normalize_refuses request loose_validation e h =
      let shape = (normalize_fails request loose_validation).at e h in (shape, rw shape, rw shape)
