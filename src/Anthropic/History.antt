-- ===== src/Anthropic/History.antt =====
-- src/anthropic.rs, `validate_tool_history`: every tool call has an id of its own, and every result
-- belongs to a call before it. The two hash sets are lists of ids here.
pub mod Examples
pub mod Errors
pub mod Ids
use calude_proxy.Base.{
  String, Bool, true, false, not, List, [], ◌∷◌, is_blank, one_of, if◌then◌else◌, ◌||◌,
}
use calude_proxy.Error.{ProxyError, Result, ok, err, invalid, ◌>>=◌}
use calude_proxy.Domain.{InputBlock, MessageRole, NormalizedMessage}

-- The ids of the calls seen so far, and of those that have a result.
pub record Seen : Type 0 where
  pub calls : List String
  pub results : List String

abbrev pub is_assistant : MessageRole → Bool
is_assistant MessageRole.assistant = true
is_assistant _ = false

abbrev pub is_user : MessageRole → Bool
is_user MessageRole.user = true
is_user _ = false

abbrev pub bad_call : ProxyError
bad_call = invalid "tool_use blocks require unique non-empty IDs in assistant messages"

abbrev pub bad_result : ProxyError
bad_result = invalid "tool_result must reference one prior unresolved assistant tool_use"

-- The `match` on a block.
unfoldable pub check_block : MessageRole → Seen → InputBlock → Result Seen
check_block role seen (InputBlock.tool_use id name input) =
    if not (is_assistant role) || is_blank id || one_of id seen.calls
    then err bad_call
    else ok (record seen { calls = id ∷ seen.calls })
check_block role seen (InputBlock.tool_result id content is_error) =
    if not (is_user role) || not (one_of id seen.calls) || one_of id seen.results
    then err bad_result
    else ok (record seen { results = id ∷ seen.results })
check_block role seen _ = ok seen

unfoldable pub check_blocks : MessageRole → Seen → List InputBlock → Result Seen
check_blocks role seen [] = ok seen
check_blocks role seen (block ∷ rest) =
    check_block role seen block >>= λ after. check_blocks role after rest

unfoldable pub check_messages : Seen → List NormalizedMessage → Result Seen
check_messages seen [] = ok seen
check_messages seen (message ∷ rest) =
    check_blocks message.role seen message.blocks >>= λ after. check_messages after rest

unfoldable pub validate_tool_history : List NormalizedMessage → Result (Unit {0})
validate_tool_history messages =
    check_messages (record { calls = []; results = [] }) messages >>= λ seen. ok tt
