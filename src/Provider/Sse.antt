-- ===== src/Provider/Sse.antt =====
-- `parse_sse` of src/provider.rs: the bytes of a provider's reply become its events. `from_str` stands
-- for `serde_json::from_str` and `json_error` for the message of its error. A map from indices is an
-- association list in the order of insertion, which is one of the orders in which a hash map may list
-- its entries; a `usize` has 64 bits.
pub mod Chunks
pub mod Examples
pub mod Shape
pub mod Ending
use calude_proxy.Base.{
  ℕ, ◌+◌, String, Bool, true, false, not, Option, none, some, List, [], ◌∷◌, ◌++◌, is_blank,
  strip_prefix, trim, from_utf8, ◌==◌, ◌=?◌, ◌⧺◌, ◌&&◌, if◌then◌else◌,
}
use calude_proxy.Error.{ProxyError, ErrorKind, Result, ok, err, new, ok_or}
use calude_proxy.Json.{Value, as_str, as_u64, as_array, is_null, get, pointer, and_then, unwrap_or}
use calude_proxy.Domain.{ProviderEvent, StopReason, Usage}
use calude_proxy.Provider.Response.{map_stop_reason}
use calude_proxy.Provider.Status.{TransportError, classify_transport}
use calude_proxy.Provider.Emits.{Emits, pure, emit, lift, ◌>>=◌, ◌>>◌}

pub record StreamedTool : Type 0 where
  pub id : String
  pub name : String
  pub arguments : String
  pub started : Bool

abbrev pub StreamedTools : Type 0
StreamedTools = List (ℕ × StreamedTool)

-- `tools.entry(index).or_default()`.
unfoldable pub entry : ℕ → StreamedTools → StreamedTool
entry index [] = record { id = ""; name = ""; arguments = ""; started = false }
entry index ((k, tool) ∷ rest) = let later = entry index rest in if index == k then tool else later

-- The entry with its new value.
unfoldable pub store : ℕ → StreamedTool → StreamedTools → StreamedTools
store index tool [] = (index, tool) ∷ []
store index tool ((k, old) ∷ rest) =
    let later = store index tool rest in if index == k then (k, tool) ∷ rest else (k, old) ∷ later

-- The variables of the body that last from line to line.
pub record Progress : Type 0 where
  pub tools : StreamedTools
  pub final_usage : Option Usage
  pub final_reason : Option StopReason

-- The usage of a chunk, where it has both counts.
unfoldable pub chunk_usage : Value → Option Usage
chunk_usage chunk = and_then (get chunk "usage") (λ usage.
    if is_null usage
    then none
    else and_then (and_then (get usage "prompt_tokens") as_u64) (λ input.
      and_then (and_then (get usage "completion_tokens") as_u64)
        (λ output. some (record { input_tokens = input; output_tokens = output }))))

unfoldable pub on_usage : Progress → Value → Emits Progress
on_usage p chunk = elim (chunk_usage chunk) [
  | none ↦ pure p
  | some usage ↦ emit (ProviderEvent.usage usage) >> pure (record p { final_usage = some usage })
]

abbrev pub push_some : String → Option String → String
push_some s none = s
push_some s (some more) = s ⧺ more

-- The part of the loop over the calls that starts a tool, once it has an id and a name.
unfoldable pub start_tool : ℕ → StreamedTool → Emits StreamedTool
start_tool index tool =
    if not tool.started && not (is_blank tool.id) && not (is_blank tool.name)
    then emit (ProviderEvent.tool_start index tool.id tool.name)
      >> (if is_blank tool.arguments
          then pure (record tool { started = true })
          else emit (ProviderEvent.tool_delta index tool.arguments)
            >> pure (record tool { started = true }))
    else pure tool

-- And the part that takes the arguments.
unfoldable pub push_call_arguments : ℕ → Option String → StreamedTool → Emits StreamedTool
push_call_arguments index none tool = pure tool
push_call_arguments index (some arguments) tool =
    let longer : StreamedTool = record tool { arguments = tool.arguments ⧺ arguments } in
    if tool.started
    then emit (ProviderEvent.tool_delta index arguments) >> pure longer
    else pure longer

unfoldable pub named : Value → StreamedTool → StreamedTool
named call tool = record tool {
  id = push_some tool.id (and_then (get call "id") as_str);
  name = push_some tool.name (and_then (pointer call "function" "name") as_str);
}

unfoldable pub on_call : Progress → Value → Emits Progress
on_call p call = do
  index ← lift (
      ok_or (and_then (get call "index") as_u64)
        (new ErrorKind.upstream "streamed tool call lacks index"))
  started ← start_tool index (named call (entry index p.tools))
  tool ← push_call_arguments index (and_then (pointer call "function" "arguments") as_str) started
  pure (record p { tools = store index tool p.tools })

unfoldable pub on_calls : Progress → List Value → Emits Progress
on_calls p [] = pure p
on_calls p (call ∷ rest) = on_call p call >>= λ next. on_calls next rest

unfoldable pub on_content : Option String → Emits (Unit {0})
on_content none = pure tt
on_content (some text) = if is_blank text then pure tt else emit (ProviderEvent.text text)

unfoldable pub on_reason : Progress → Option String → Emits Progress
on_reason p none = pure p
on_reason p (some reason) =
    lift (map_stop_reason (some reason)) >>= λ stop. pure (record p { final_reason = some stop })

abbrev pub list_at : Option Value → List Value
list_at value = unwrap_or (and_then value as_array) []

unfoldable pub on_choice : Progress → Value → Emits Progress
on_choice p choice = do
  on_content (and_then (pointer choice "delta" "content") as_str)
  next ← on_calls p (list_at (pointer choice "delta" "tool_calls"))
  on_reason next (and_then (get choice "finish_reason") as_str)

unfoldable pub on_choices : Progress → List Value → Emits Progress
on_choices p [] = pure p
on_choices p (choice ∷ rest) = on_choice p choice >>= λ next. on_choices next rest

unfoldable pub on_chunk : Progress → Value → Emits Progress
on_chunk p chunk = on_usage p chunk >>= λ next. on_choices next (list_at (get chunk "choices"))

-- Where a line leaves the stream.
pub data Line : Type 0 where
  next : Progress → Line
  returned : Line

-- The stream goes on after a line, or it has returned.
abbrev pub per_line {ℓ} : {A : Type ℓ} → (Progress → Emits A) → Emits A → Line → Emits A
per_line go stop (next p) = go p
per_line go stop returned = stop

-- The lines that a buffer has, each up to its `\n`, and what is left. The `while let` drains them one
-- after the other; here they are all cut first, since its body does not look at the buffer.
abbrev pub join_byte : ℕ → List (List ℕ) → List ℕ → List (List ℕ) × List ℕ
join_byte byte [] left = ([], byte ∷ left)
join_byte byte (line ∷ lines) left = ((byte ∷ line) ∷ lines, left)

unfoldable pub split_lines : List ℕ → List (List ℕ) × List ℕ
split_lines [] = ([], [])
split_lines (byte ∷ rest) =
    let later = split_lines rest in
    if byte == 10 then ([] ∷ later.0, later.1) else join_byte byte later.0 later.1

-- `if line.last() == Some(&b'\r') { line.pop(); }`.
unfoldable pub strip_cr : List ℕ → List ℕ
strip_cr [] = []
strip_cr (byte ∷ []) = if byte == 13 then [] else byte ∷ []
strip_cr (byte ∷ b ∷ rest) = byte ∷ strip_cr (b ∷ rest)

-- What the HTTP client delivers.
pub data Delivery : Type 0 where
  bytes : List ℕ → Delivery
  broken : TransportError → Delivery

module _ (from_str : String → Option Value) (json_error : String → String) where
  unfoldable pub validate_streamed_tools : StreamedTools → Result (Unit {0})
  validate_streamed_tools [] = ok tt
  validate_streamed_tools ((k, tool) ∷ rest) =
      let later = validate_streamed_tools rest in
      if tool.started
      then elim (from_str tool.arguments) [
        | some value ↦ later
        | none ↦ err (new ErrorKind.upstream "provider returned invalid streamed tool-call JSON")
      ]
      else err (new ErrorKind.upstream "provider returned an incomplete streamed tool call")

  -- The end of the stream, with the message for a stream that gave no reason.
  unfoldable pub finish : Progress → String → Emits (Unit {0})
  finish p message = do
    lift (validate_streamed_tools p.tools)
    reason ← lift (ok_or p.final_reason (new ErrorKind.upstream message))
    emit (ProviderEvent.finished reason p.final_usage)

  unfoldable pub on_data : Progress → String → Emits Line
  on_data p data' =
      if is_blank data'
      then pure (next p)
      else if data' =? "[DONE]"
      then finish p "provider stream ended without a finish reason" >> pure returned
      else do
        chunk ← lift (
            ok_or (from_str data')
              (new ErrorKind.upstream ("invalid provider SSE JSON: " ⧺ json_error data')))
        after_chunk ← on_chunk p chunk
        pure (next after_chunk)

  unfoldable pub on_line : Progress → List ℕ → Emits Line
  on_line p raw = do
    line ←
        lift
          (ok_or (from_utf8 (strip_cr raw)) (new ErrorKind.upstream "provider stream is not UTF-8"))
    elim (strip_prefix "data:" line) [ none ↦ pure (next p) | some data' ↦ on_data p (trim data') ]

  unfoldable pub on_lines : Progress → List (List ℕ) → Emits Line
  on_lines p [] = pure (next p)
  on_lines p (raw ∷ rest) = on_line p raw >>= per_line (λ q. on_lines q rest) (pure returned)

  -- The body of `parse_sse` from a point on, with the bytes that are left in the buffer.
  unfoldable pub parse_from : Progress → List ℕ → List Delivery → Emits (Unit {0})
  parse_from p buffer [] = finish p "provider stream terminated before completion"
  parse_from p buffer (broken error ∷ rest) = lift (err (classify_transport error))
  parse_from p buffer (bytes chunk ∷ rest) =
      let cut = split_lines (buffer ++ chunk) in
      on_lines p cut.0 >>= per_line (λ q. parse_from q cut.1 rest) (pure tt)

  unfoldable pub parse_sse : List Delivery → Emits (Unit {0})
  parse_sse input =
      parse_from (record { tools = []; final_usage = none; final_reason = none }) [] input
