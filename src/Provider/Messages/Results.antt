-- ===== src/Provider/Messages/Results.antt =====
-- Every tool result reaches the target: in order, before the text of its message, and marked if it
-- is an error.
use mathlib.Core.List.{append_assoc, append-nil}
use calude_proxy.Base.{String, ◌≡◌, ap, ◌∙◌, List, [], ◌∷◌, ◌++◌, ◌⧺◌, if◌then◌else◌}
use calude_proxy.Error.{ok, >>=-eq-ok}
use calude_proxy.Json.{Value, string}
use calude_proxy.Domain.{InputBlock, image, tool_result, tool_use}
use calude_proxy.Domain
use calude_proxy.Provider.Messages.{
  Parts, add_block, add_blocks, convert_user, tool_message, role_message,
}

-- The message that a tool result with string content is to become.
pub tool_messages_of : InputBlock → List Value
tool_messages_of (tool_result id (string s) is_error) =
    tool_message id (if is_error then "Error: " ⧺ s else s) ∷ []
tool_messages_of _ = []

pub tool_messages : List InputBlock → List Value
tool_messages [] = []
tool_messages (b ∷ rest) = tool_messages_of b ++ tool_messages rest

add_block_lem :
    (p q : Parts) (b : InputBlock)
    → add_block p b ≡ ok q
    → q.tool_results ≡ p.tool_results ++ tool_messages_of b
unfolding add_block tool_messages_of
add_block_lem p q (Domain.InputBlock.text t) h = cc (append-nil p.tool_results)
add_block_lem p q (image m d) h = cc (append-nil p.tool_results)
add_block_lem p q (tool_result i (string s) e) h = cc
add_block_lem p q (tool_result i _ e) h = cc
add_block_lem p q (tool_use i n v) h = cc

add_blocks_lem :
    (p q : Parts) (bs : List InputBlock)
    → add_blocks p bs ≡ ok q
    → q.tool_results ≡ p.tool_results ++ tool_messages bs
unfolding add_blocks tool_messages
add_blocks_lem p q [] h = cc (append-nil p.tool_results)
add_blocks_lem p q (b ∷ bs) h =
    let (r, e, h1) = >>=-eq-ok (add_block p b) _ h in
    add_blocks_lem r q bs h1
    ∙ ap (λ l. l ++ tool_messages bs) (add_block_lem p r b e)
    ∙ append_assoc p.tool_results (tool_messages_of b) (tool_messages bs)

-- A user or system message that converts becomes, first, one tool message for each of its tool
-- results, in their order, with the call's id and the content, marked `Error: ` where the result is
-- an error; and then at most one message of its role.
pub convert_user_results :
    (role : String) (blocks : List InputBlock) (converted : List Value)
    → convert_user role blocks ≡ ok converted
    → (content : List Value) × (converted ≡ tool_messages blocks ++ role_message role content)
unfolding convert_user
convert_user_results role blocks converted h =
    let (p, e, h1) =
      >>=-eq-ok (add_blocks (record { content = []; tool_results = [] }) blocks) _ h in
    (p.content, cc (h1, add_blocks_lem _ p blocks e))
