-- ===== src/Provider/Adapt.antt =====
-- `Provider::adapt_request` of src/provider.rs, one function for each capability that it checks.
-- Counting the adaptations is left out. `to_string` stands for `serde_json::to_string`.
pub mod Conforms
pub mod Examples
pub mod Identity
pub mod Preserves
pub mod Refusals
use calude_proxy.Base.{
  ℕ, String, Bool, true, false, not, ◌&&◌, Option, none, some, List, [], ◌∷◌, ltb, is_empty,
  if◌then◌else◌, ◌⧺◌, decimal,
}
use calude_proxy.Error.{Result, ok, err, invalid, ok_or, ◌>>=◌}
use calude_proxy.Json.{Value, string, is_string}
use calude_proxy.Domain.{
  NormalizedRequest, NormalizedMessage, InputBlock, image, tool_result, tool_use, ToolChoice, auto,
  any, never, tool,
}
use calude_proxy.Domain
use calude_proxy.Config.{CapabilityProfile}

-- `Option::is_some`.
abbrev pub is_some {ℓ} : {A : Type ℓ} → Option A → Bool
is_some none = false
is_some (some a) = true

-- What a request uses and the target lacks is adapted if the configuration allows it, and refused
-- otherwise.
abbrev fall_back :
    (lacking allowed : Bool) (original adapted : NormalizedRequest) (refusal : String)
    → Result NormalizedRequest
fall_back lacking allowed original adapted refusal =
    if lacking then (if allowed then ok adapted else err (invalid refusal)) else ok original

pub adapt_max_tokens : CapabilityProfile → NormalizedRequest → Result NormalizedRequest
adapt_max_tokens caps r =
    fall_back (ltb caps.max_output_tokens r.max_tokens) caps.allow_max_tokens_clamping r
      (record r { max_tokens = caps.max_output_tokens })
      ("max_tokens exceeds target limit " ⧺ decimal caps.max_output_tokens)

pub adapt_temperature : CapabilityProfile → NormalizedRequest → Result NormalizedRequest
adapt_temperature caps r =
    fall_back (is_some r.temperature && not caps.supports_temperature)
      caps.allow_temperature_fallback r (record r { temperature = none })
      "target does not support temperature"

pub adapt_top_p : CapabilityProfile → NormalizedRequest → Result NormalizedRequest
adapt_top_p caps r =
    fall_back (is_some r.top_p && not caps.supports_top_p) caps.allow_top_p_fallback r
      (record r { top_p = none }) "target does not support top_p"

pub adapt_stop : CapabilityProfile → NormalizedRequest → Result NormalizedRequest
adapt_stop caps r =
    fall_back (not (is_empty r.stop_sequences) && not caps.supports_stop) caps.allow_stop_fallback r
      (record r { stop_sequences = [] }) "target does not support stop sequences"

pub check_tools : CapabilityProfile → NormalizedRequest → Result NormalizedRequest
check_tools caps r =
    if not (is_empty r.tools) && not caps.tools
    then err (invalid "target does not support tools")
    else ok r

-- The `matches!` on the choices that leave parallel tool calls on.
unfoldable pub wants_parallel : Option ToolChoice → Bool
wants_parallel none = false
wants_parallel (some (auto disable)) = not disable
wants_parallel (some (any disable)) = not disable
wants_parallel (some never) = false
wants_parallel (some (tool name disable)) = not disable

unfoldable pub without_parallel : Option ToolChoice → Option ToolChoice
without_parallel none = none
without_parallel (some (auto disable)) = some (auto true)
without_parallel (some (any disable)) = some (any true)
without_parallel (some never) = some never
without_parallel (some (tool name disable)) = some (tool name true)

pub adapt_parallel : CapabilityProfile → NormalizedRequest → Result NormalizedRequest
adapt_parallel caps r =
    fall_back (wants_parallel r.tool_choice && not caps.parallel_tools)
      caps.allow_parallel_tool_fallback r
      (record r { tool_choice = without_parallel r.tool_choice })
      "target does not support parallel tools"

module _ (to_string : Value → Option String) (caps : CapabilityProfile) where
  -- The structured content of a tool result becomes its JSON text.
  pub adapt_result : (id : String) (content : Value) (is_error : Bool) → Result InputBlock
  adapt_result id content is_error =
      if is_string content
      then ok (tool_result id content is_error)
      else if caps.allow_structured_tool_results_to_string
      then (do
        serialized ←
            ok_or (to_string content)
              (invalid "could not serialize structured tool result to string")
        ok (tool_result id (string serialized) is_error))
      else err (
          invalid
            "structured or multimodal tool results are not supported by Chat Completions targets")

  pub adapt_block : InputBlock → Result InputBlock
  adapt_block (image media_type image_data) =
      if caps.vision
      then ok (image media_type image_data)
      else err (invalid "target does not support image input")
  adapt_block (tool_result id content is_error) = adapt_result id content is_error
  adapt_block (Domain.InputBlock.text t) = ok (Domain.InputBlock.text t)
  adapt_block (tool_use id name input) = ok (tool_use id name input)

  pub adapt_blocks : List InputBlock → Result (List InputBlock)
  adapt_blocks [] = ok []
  adapt_blocks (block ∷ rest) = do
    adapted ← adapt_block block
    others ← adapt_blocks rest
    ok (adapted ∷ others)

  pub adapt_messages : List NormalizedMessage → Result (List NormalizedMessage)
  adapt_messages [] = ok []
  adapt_messages (message ∷ rest) = do
    blocks ← adapt_blocks message.blocks
    others ← adapt_messages rest
    ok (record message { blocks = blocks } ∷ others)

  pub adapt_content : NormalizedRequest → Result NormalizedRequest
  adapt_content r = do messages ← adapt_messages r.messages; ok (record r { messages = messages })

  -- `Provider::adapt_request`: the checks, in the order of the source.
  pub adapt_request : NormalizedRequest → Result NormalizedRequest
  adapt_request request = do
    r1 ← adapt_max_tokens caps request
    r2 ← adapt_temperature caps r1
    r3 ← adapt_top_p caps r2
    r4 ← adapt_stop caps r3
    r5 ← check_tools caps r4
    r6 ← adapt_parallel caps r5
    adapt_content r6
