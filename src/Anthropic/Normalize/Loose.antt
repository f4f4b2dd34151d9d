-- ===== src/Anthropic/Normalize/Loose.antt =====
-- The two validation modes of `normalize`, and its errors.
use calude_proxy.Base.{ℕ, ◌≡◌, String, Bool, true, false, Option, none, some, List, [], ◌∷◌}
use calude_proxy.Error.{ok}
use calude_proxy.Json.{Value}
use calude_proxy.Domain.{AnthropicRequest, InputMessage, NormalizedRequest, ToolDefinition}
use calude_proxy.Anthropic.Fields.Loosens.{Loosens, Loosens-refl, Loosens-bind, loosens}
use calude_proxy.Anthropic.Blocks.Loose.{parse_system-Loosens, parse_content-Loosens}
use calude_proxy.Anthropic.Normalize.{
  check_head, check_tool, check_tools, parse_choice, parse_tool_choice, parse_message, parse_prompt,
  normalize,
}

check_head-Loosens :
    (request : AnthropicRequest) → Loosens (check_head request true) (check_head request false)
unfolding check_head
check_head-Loosens request = search (loosens) depth 40

check_tool-Loosens :
    (names : List String) (tool : ToolDefinition)
    → Loosens (check_tool true names tool) (check_tool false names tool)
unfolding check_tool
check_tool-Loosens names tool = search (loosens) depth 40

check_tools-Loosens :
    (names : List String) (tools : List ToolDefinition)
    → Loosens (check_tools true names tools) (check_tools false names tools)
unfolding check_tools
check_tools-Loosens names [] = Loosens-refl _
check_tools-Loosens names (tool ∷ rest) =
    Loosens-bind (check_tool true names tool) (check_tool false names tool)
      (λ more. check_tools true more rest) (λ more. check_tools false more rest)
      (check_tool-Loosens names tool) (λ more. check_tools-Loosens more rest)

parse_choice-Loosens :
    (value : Value) → Loosens (parse_choice value true) (parse_choice value false)
unfolding parse_choice
parse_choice-Loosens value = search (loosens) depth 40

parse_tool_choice-Loosens :
    (value : Option Value) → Loosens (parse_tool_choice value true) (parse_tool_choice value false)
unfolding parse_tool_choice
parse_tool_choice-Loosens none = Loosens-refl _
parse_tool_choice-Loosens (some value) = search (loosens, parse_choice-Loosens) depth 20

parse_prompt-Loosens :
    (system : Option Value) → Loosens (parse_prompt system true) (parse_prompt system false)
parse_prompt-Loosens none = Loosens-refl _
parse_prompt-Loosens (some system) = search (loosens, parse_system-Loosens) depth 20

module _ (base64_valid : String → Bool) (url_scheme : String → Option String) where
  parse_message-Loosens :
      (index : ℕ) (message : InputMessage)
      → Loosens
          (parse_message base64_valid url_scheme true index message)
          (parse_message base64_valid url_scheme false index message)
  unfolding parse_message
  parse_message-Loosens index message = search (loosens, parse_content-Loosens) depth 20

  -- Loose validation only accepts more: a request that the strict mode accepts is accepted by the
  -- loose mode, with the same normalized request.
  pub normalize_loosens :
      (request : AnthropicRequest) (n : NormalizedRequest)
      → normalize base64_valid url_scheme request false ≡ ok n
      → normalize base64_valid url_scheme request true ≡ ok n
  unfolding normalize
  normalize_loosens request n h = go.at n h
    where
      go :
          Loosens
            (normalize base64_valid url_scheme request false)
            (normalize base64_valid url_scheme request true)
      go =
          search
            (
              loosens, check_head-Loosens, parse_prompt-Loosens, parse_message-Loosens,
              check_tools-Loosens, parse_tool_choice-Loosens,
            )
            depth 40
