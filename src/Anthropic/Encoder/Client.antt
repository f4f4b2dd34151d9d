-- ===== src/Anthropic/Encoder/Client.antt =====
-- A client of the Anthropic event stream: what it makes of a sequence of events, or that it cannot
-- follow them.
pub mod Message
pub mod Draft
pub mod Follows
pub mod Calls
pub mod Reads
pub mod Examples
use calude_proxy.Base.{
  ℕ, zero, suc, String, Bool, true, false, Option, none, some, List, [], ◌∷◌, ◌++◌, length, ◌==◌,
  ◌=?◌, ◌⧺◌, ◌&&◌, if◌then◌else◌,
}
use calude_proxy.Json.{Value, as_str, as_u64, get, and_then, pointer, unwrap_or}
use calude_proxy.Anthropic.Encoder.{Frame}

-- A content block as the client has it: the arguments of a call are the text of a JSON value.
pub data Block : Type 0 where
  text : String → Block
  tool_use : (id name arguments : String) → Block

-- Where the client is in the protocol: before `message_start`, between two blocks, within one, after
-- `message_delta` (with the stop reason and the output tokens), and after `message_stop`.
pub data Reader : Type 0 where
  waiting : Reader
  between : List Block → Reader
  within : List Block → Block → Reader
  stopping complete : List Block → (stop_reason : String) (output_tokens : ℕ) → Reader

-- The index that an event carries is that of the block at hand.
abbrev has_index : Frame → List Block → Bool
has_index frame blocks = elim (and_then (get frame.payload "index") as_u64) [
  | some index ↦ index == length blocks
  | none ↦ false
]

abbrev text_at : Value → String → String → String
text_at value a b = unwrap_or (and_then (pointer value a b) as_str) ""

-- The block that `content_block_start` opens.
abbrev opened : Value → Option Block
opened value =
    let kind = text_at value "content_block" "type" in
    if kind =? "text"
    then some (Block.text (text_at value "content_block" "text"))
    else if kind =? "tool_use"
    then some (
        Block.tool_use (text_at value "content_block" "id") (text_at value "content_block" "name")
          "")
    else none

-- A delta goes on with a block of its own kind.
abbrev extended : Value → Block → Option Block
extended value (Block.text t) =
    if text_at value "delta" "type" =? "text_delta"
    then some (Block.text (t ⧺ text_at value "delta" "text"))
    else none
extended value (Block.tool_use id name arguments) =
    if text_at value "delta" "type" =? "input_json_delta"
    then some (Block.tool_use id name (arguments ⧺ text_at value "delta" "partial_json"))
    else none

abbrev map_option {ℓ κ} : {A : Type ℓ} {B : Type κ} → (A → B) → Option A → Option B
map_option f none = none
map_option f (some a) = some (f a)

pub read_one : Reader → Frame → Option Reader
read_one waiting frame = if frame.event =? "message_start" then some (between []) else none
read_one (between blocks) frame =
    if frame.event =? "content_block_start" && has_index frame blocks
    then map_option (within blocks) (opened frame.payload)
    else if frame.event =? "message_delta"
    then some (
        stopping blocks (text_at frame.payload "delta" "stop_reason")
          (unwrap_or (and_then (pointer frame.payload "usage" "output_tokens") as_u64) 0))
    else none
read_one (within blocks block) frame =
    if frame.event =? "content_block_delta" && has_index frame blocks
    then map_option (within blocks) (extended frame.payload block)
    else if frame.event =? "content_block_stop" && has_index frame blocks
    then some (between (blocks ++ block ∷ []))
    else none
read_one (stopping blocks reason tokens) frame =
    if frame.event =? "message_stop" then some (complete blocks reason tokens) else none
read_one (complete blocks reason tokens) frame = none

pub read : Reader → List Frame → Option Reader
read r [] = some r
read r (frame ∷ rest) = and_then (read_one r frame) (λ next. read next rest)
