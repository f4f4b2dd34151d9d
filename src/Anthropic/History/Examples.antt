-- ===== src/Anthropic/History/Examples.antt =====
-- A call and its result, and a result alone.
use calude_proxy.Base.{◌≡◌, refl, true, false, [], ◌∷◌, turned}
use calude_proxy.Error.{ok, err}
use calude_proxy.Json.{string, obj}
use calude_proxy.Domain.{InputBlock, MessageRole, NormalizedMessage}
use calude_proxy.Anthropic.History.{
  validate_tool_history, check_messages, check_blocks, check_block, bad_result,
}
use calude_proxy.Anthropic.History.Ids.{
  entry, flatten, allowed, Violation, validate_tool_history_sound, validate_tool_history_refuses,
}

abbrev call : NormalizedMessage
call = record {
  role = MessageRole.assistant;
  blocks = InputBlock.tool_use "a" "lookup" (obj []) ∷ [];
}

abbrev answer : NormalizedMessage
answer = record {
  role = MessageRole.user;
  blocks = InputBlock.tool_result "a" (string "1") false ∷ [];
}

answered_call : validate_tool_history (call ∷ answer ∷ []) ≡ ok tt
unfolding validate_tool_history check_messages check_blocks check_block
answered_call = refl

validate_tool_history_sound_example :
    allowed
      (turned (entry MessageRole.assistant (InputBlock.tool_use "a" "lookup" (obj [])) ∷ []) [])
      (entry MessageRole.user (InputBlock.tool_result "a" (string "1") false))
    ≡ true
validate_tool_history_sound_example =
    validate_tool_history_sound (call ∷ answer ∷ [])
      (entry MessageRole.assistant (InputBlock.tool_use "a" "lookup" (obj [])) ∷ []) []
      (entry MessageRole.user (InputBlock.tool_result "a" (string "1") false)) answered_call refl

stray_answer : validate_tool_history (answer ∷ []) ≡ err bad_result
unfolding validate_tool_history check_messages check_blocks check_block
stray_answer = refl

validate_tool_history_refuses_example : Violation [] (flatten (answer ∷ []))
validate_tool_history_refuses_example =
    validate_tool_history_refuses (answer ∷ []) bad_result stray_answer
