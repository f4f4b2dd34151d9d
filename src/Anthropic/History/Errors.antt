-- ===== src/Anthropic/History/Errors.antt =====
-- The errors of `validate_tool_history`.
use calude_proxy.Base.{List, [], ◌∷◌}
use calude_proxy.Error.Invalid.{FailsInvalid, FailsInvalid-bind}
use calude_proxy.Domain.{InputBlock, MessageRole, NormalizedMessage}
use calude_proxy.Anthropic.Fields.Loosens.{parser_fails}
use calude_proxy.Anthropic.History.{
  Seen, check_block, check_blocks, check_messages, validate_tool_history,
}

check_block_fails :
    (role : MessageRole) (seen : Seen) (block : InputBlock)
    → FailsInvalid (check_block role seen block)
unfolding check_block
check_block_fails role seen (InputBlock.tool_use id name input) = search (parser_fails) depth 20
check_block_fails role seen (InputBlock.tool_result id content is_error) =
    search (parser_fails) depth 20
check_block_fails role seen _ = search (parser_fails)

check_blocks_fails :
    (role : MessageRole) (seen : Seen) (blocks : List InputBlock)
    → FailsInvalid (check_blocks role seen blocks)
unfolding check_blocks
check_blocks_fails role seen [] = search (parser_fails)
check_blocks_fails role seen (block ∷ rest) =
    FailsInvalid-bind (check_block role seen block) (λ after. check_blocks role after rest)
      (check_block_fails role seen block) (λ after. check_blocks_fails role after rest)

check_messages_fails :
    (seen : Seen) (messages : List NormalizedMessage) → FailsInvalid (check_messages seen messages)
unfolding check_messages
check_messages_fails seen [] = search (parser_fails)
check_messages_fails seen (message ∷ rest) =
    FailsInvalid-bind (check_blocks message.role seen message.blocks)
      (λ after. check_messages after rest) (check_blocks_fails message.role seen message.blocks)
      (λ after. check_messages_fails after rest)

pub validate_tool_history_fails :
    (messages : List NormalizedMessage) → FailsInvalid (validate_tool_history messages)
unfolding validate_tool_history
validate_tool_history_fails messages = search (parser_fails, check_messages_fails) depth 20
