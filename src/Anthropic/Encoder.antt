-- ===== src/Anthropic/Encoder.antt =====
-- src/anthropic.rs, `StreamEncoder`: the events of a provider become the server-sent events of the
-- Anthropic protocol. `to_string` stands for serde_json's printer. An index counts up from 0; that a
-- `usize` wraps is left out, since a stream would need 2^64 blocks for it.
pub mod Client
pub mod Unfinished
pub mod Quiet
use calude_proxy.Base.{
  ℕ, ◌+◌, String, Bool, true, false, Option, none, some, List, [], ◌∷◌, ◌++◌, ltb, ◌==◌,
  if◌then◌else◌, ◌⧺◌,
}
use calude_proxy.Json.{Value, null, string, obj, arr, json_number}
use calude_proxy.Domain.{ProviderEvent, StopReason, Usage, as_str}

-- An event of the stream: its name and its data.
pub record Frame : Type 0 where
  pub event : String
  pub payload : Value

pub sse_event : (Value → String) → Frame → String
sse_event to_string frame = "event: " ⧺ frame.event ⧺ "\ndata: " ⧺ to_string frame.payload ⧺ "\n\n"

pub record BufferedTool : Type 0 where
  pub id : String
  pub name : String
  pub arguments : String

-- The ordered map of the tools, by the provider's index: a list that is sorted by it.
abbrev pub Tools : Type 0
Tools = List (ℕ × BufferedTool)

pub insert : ℕ → BufferedTool → Tools → Tools
insert k tool [] = (k, tool) ∷ []
insert k tool ((j, other) ∷ rest) =
    let later = insert k tool rest in
    if ltb k j
    then (k, tool) ∷ (j, other) ∷ rest
    else if k == j
    then (k, tool) ∷ rest
    else (j, other) ∷ later

-- `get_mut(&k)`, then `arguments.push_str(more)`.
pub push_arguments : ℕ → String → Tools → Tools
push_arguments k more [] = []
push_arguments k more ((j, tool) ∷ rest) =
    let later = push_arguments k more rest in
    if k == j
    then (j, record tool { arguments = tool.arguments ⧺ more }) ∷ rest
    else (j, tool) ∷ later

pub record StreamEncoder : Type 0 where
  pub next_block : ℕ
  pub text_block : Option ℕ
  pub tools : Tools
  pub input_tokens : ℕ
  pub output_tokens : ℕ

-- The events that `json!` writes out in `new` and `encode`.
abbrev pub message_start : (message_id model : String) (input_tokens : ℕ) → Frame
message_start message_id model input_tokens = record {
  event = "message_start";
  payload = obj (
      ("type", string "message_start")
      ∷ (
        "message",
        obj (
            ("id", string message_id)
            ∷ ("type", string "message")
            ∷ ("role", string "assistant")
            ∷ ("model", string model)
            ∷ ("content", arr [])
            ∷ ("stop_reason", null)
            ∷ ("stop_sequence", null)
            ∷ (
              "usage",
              obj (
                  ("input_tokens", json_number input_tokens)
                  ∷ ("output_tokens", json_number 0)
                  ∷ []),
            )
            ∷ []),
      )
      ∷ []);
}

abbrev pub block_start : ℕ → List (String × Value) → Frame
block_start index content_block = record {
  event = "content_block_start";
  payload = obj (
      ("type", string "content_block_start")
      ∷ ("index", json_number index)
      ∷ ("content_block", obj content_block)
      ∷ []);
}

abbrev pub block_delta : ℕ → List (String × Value) → Frame
block_delta index delta = record {
  event = "content_block_delta";
  payload = obj (
      ("type", string "content_block_delta")
      ∷ ("index", json_number index)
      ∷ ("delta", obj delta)
      ∷ []);
}

abbrev pub block_stop : ℕ → Frame
block_stop index = record {
  event = "content_block_stop";
  payload = obj (("type", string "content_block_stop") ∷ ("index", json_number index) ∷ []);
}

abbrev pub message_delta : StopReason → ℕ → Frame
message_delta reason output_tokens = record {
  event = "message_delta";
  payload = obj (
      ("type", string "message_delta")
      ∷ ("delta", obj (("stop_reason", string (as_str reason)) ∷ ("stop_sequence", null) ∷ []))
      ∷ ("usage", obj (("output_tokens", json_number output_tokens) ∷ []))
      ∷ []);
}

abbrev pub message_stop : Frame
message_stop = record {
  event = "message_stop";
  payload = obj (("type", string "message_stop") ∷ []);
}

abbrev text_start : ℕ → Frame
text_start index = block_start index (("type", string "text") ∷ ("text", string "") ∷ [])

abbrev text_delta : ℕ → String → Frame
text_delta index text =
    block_delta index (("type", string "text_delta") ∷ ("text", string text) ∷ [])

-- `StreamEncoder::new`.
unfoldable pub start : (message_id model : String) (input_tokens : ℕ) → StreamEncoder × List Frame
start message_id model input_tokens = (
  record {
    next_block = 0;
    text_block = none;
    tools = [];
    input_tokens = input_tokens;
    output_tokens = 0;
  },
  message_start message_id model input_tokens ∷ [],
)

abbrev record_usage : Usage → StreamEncoder → StreamEncoder
record_usage usage s = record s {
  input_tokens = usage.input_tokens;
  output_tokens = usage.output_tokens;
}

abbrev pub record_final : Option Usage → StreamEncoder → StreamEncoder
record_final none s = s
record_final (some usage) s = record_usage usage s

-- The loop over the tools in `Finished`, from the next index on: that index after it, and the
-- events.
pub tool_frames : ℕ → Tools → ℕ × List Frame
tool_frames index [] = (index, [])
tool_frames index ((k, tool) ∷ rest) =
    let later = tool_frames (index + 1) rest in
    (
      later.0,
      block_start index (
            ("type", string "tool_use")
            ∷ ("id", string tool.id)
            ∷ ("name", string tool.name)
            ∷ ("input", obj [])
            ∷ [])
          ∷ block_delta index
              (("type", string "input_json_delta") ∷ ("partial_json", string tool.arguments) ∷ [])
          ∷ block_stop index
          ∷ later.1,
    )

-- What `Finished` sends before the tools: the end of the text block, or an empty text block where
-- there is neither text nor tool.
pub text_frames : Option ℕ → Tools → ℕ → ℕ × List Frame
text_frames (some index) tools next_block = (next_block, block_stop index ∷ [])
text_frames none [] next_block =
    (next_block + 1, text_start next_block ∷ block_stop next_block ∷ [])
text_frames none (tool ∷ rest) next_block = (next_block, [])

pub encode : StreamEncoder → ProviderEvent → StreamEncoder × List Frame
encode s (ProviderEvent.text text) = elim s.text_block [
  | some index ↦ (s, text_delta index text ∷ [])
  | none ↦ (
    record s { next_block = s.next_block + 1; text_block = some s.next_block },
    text_start s.next_block ∷ text_delta s.next_block text ∷ [],
  )
]
encode s (ProviderEvent.tool_start index id name) = (
  record s { tools = insert index (record { id = id; name = name; arguments = "" }) s.tools },
  [],
)
encode s (ProviderEvent.tool_delta index arguments) =
    (record s { tools = push_arguments index arguments s.tools }, [])
encode s (ProviderEvent.usage usage) = (record_usage usage s, [])
encode s (ProviderEvent.finished reason usage) =
    let updated = record_final usage s in
    let (after_text, text) = text_frames updated.text_block updated.tools updated.next_block in
    let (after_tools, tools) = tool_frames after_text updated.tools in
    (
      record updated { next_block = after_tools },
      text ++ tools ++ message_delta reason updated.output_tokens ∷ message_stop ∷ [],
    )

-- A stream of events, as server.rs encodes it: one after the other.
unfoldable pub encode_all : StreamEncoder → List ProviderEvent → StreamEncoder × List Frame
encode_all s [] = (s, [])
encode_all s (event ∷ rest) =
    let (after, frames) = encode s event in
    let (last, more) = encode_all after rest in (last, frames ++ more)
