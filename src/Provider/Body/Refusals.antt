-- ===== src/Provider/Body/Refusals.antt =====
-- How `build_request` refuses a request.
use calude_proxy.Base.{String, Bool, Option, List, [], ◌∷◌}
use calude_proxy.Error.Invalid.{FailsInvalid, FailsInvalid-bind, FailsInvalid-ok, fails_invalid}
use calude_proxy.Json.{Value}
use calude_proxy.Domain.{
  NormalizedRequest, NormalizedMessage, InputBlock, MessageRole, AnthropicResponse,
}
use calude_proxy.Domain
use calude_proxy.Config.{CapabilityProfile}
use calude_proxy.Provider.Body.{build_request}
use calude_proxy.Provider.Messages.{
  Parts, Turn, add_block, add_blocks, convert_user, add_turn, add_turns, convert_assistant,
  convert_message, convert_all, convert_messages,
}

-- The request in the Chat Completions protocol is built or refused for good.
add_block-FailsInvalid : (p : Parts) (b : InputBlock) → FailsInvalid (add_block p b)
unfolding add_block
add_block-FailsInvalid p (Domain.InputBlock.text t) = search fails_invalid
add_block-FailsInvalid p (Domain.InputBlock.image m d) = search fails_invalid
add_block-FailsInvalid p (Domain.InputBlock.tool_result i v e) = search fails_invalid
add_block-FailsInvalid p (Domain.InputBlock.tool_use i n v) = search fails_invalid

add_blocks-FailsInvalid : (p : Parts) (bs : List InputBlock) → FailsInvalid (add_blocks p bs)
unfolding add_blocks
add_blocks-FailsInvalid p [] = search fails_invalid
add_blocks-FailsInvalid p (b ∷ rest) =
    FailsInvalid-bind _ _ (add_block-FailsInvalid p b) (λ q. add_blocks-FailsInvalid q rest)

module _ (to_string : Value → Option String) (print_error : Value → String) where
  add_turn-FailsInvalid :
      (t : Turn) (b : InputBlock) → FailsInvalid (add_turn to_string print_error t b)
  unfolding add_turn
  add_turn-FailsInvalid t (Domain.InputBlock.text part) = search fails_invalid
  add_turn-FailsInvalid t (Domain.InputBlock.image m d) = search fails_invalid
  add_turn-FailsInvalid t (Domain.InputBlock.tool_result i v e) = search fails_invalid
  add_turn-FailsInvalid t (Domain.InputBlock.tool_use i n v) = search fails_invalid

  add_turns-FailsInvalid :
      (t : Turn) (bs : List InputBlock) → FailsInvalid (add_turns to_string print_error t bs)
  unfolding add_turns
  add_turns-FailsInvalid t [] = search fails_invalid
  add_turns-FailsInvalid t (b ∷ rest) =
      FailsInvalid-bind _ _ (add_turn-FailsInvalid t b) (λ u. add_turns-FailsInvalid u rest)

  convert_message-FailsInvalid :
      (role : MessageRole) (bs : List InputBlock)
      → FailsInvalid (convert_message to_string print_error role bs)
  unfolding convert_message convert_user convert_assistant
  convert_message-FailsInvalid MessageRole.system bs =
      FailsInvalid-bind _ _ (add_blocks-FailsInvalid _ bs) (λ p. FailsInvalid-ok _)
  convert_message-FailsInvalid MessageRole.user bs =
      FailsInvalid-bind _ _ (add_blocks-FailsInvalid _ bs) (λ p. FailsInvalid-ok _)
  convert_message-FailsInvalid MessageRole.assistant bs =
      FailsInvalid-bind _ _ (add_turns-FailsInvalid _ bs) (λ t. FailsInvalid-ok _)

  convert_all-FailsInvalid :
      (ms : List NormalizedMessage) → FailsInvalid (convert_all to_string print_error ms)
  unfolding convert_all
  convert_all-FailsInvalid [] = search fails_invalid
  convert_all-FailsInvalid (m ∷ rest) =
      FailsInvalid-bind _ _ (convert_message-FailsInvalid m.role m.blocks)
        (λ c. FailsInvalid-bind _ _ (convert_all-FailsInvalid rest) (λ cs. FailsInvalid-ok _))

  pub build_request-FailsInvalid :
      (caps : CapabilityProfile) (request : NormalizedRequest) (model : String) (streaming : Bool)
      → FailsInvalid (build_request to_string print_error caps request model streaming)
  unfolding build_request convert_messages
  build_request-FailsInvalid caps request model streaming =
      FailsInvalid-bind _ _ (convert_all-FailsInvalid request.messages) (λ ms. FailsInvalid-ok _)
