-- ===== src/Provider/Messages.antt =====
-- `convert_messages` of src/provider.rs: the normalized messages as Chat Completions messages.
-- `to_string` stands for `serde_json::to_string`, `print_error` for the text of its error.
pub mod Total
pub mod Examples
pub mod Results
use calude_proxy.Base.{
  ℕ, String, Bool, true, false, Option, none, some, List, [], ◌∷◌, ◌++◌, is_blank, is_empty,
  if◌then◌else◌, ◌⧺◌, ◌=?◌,
}
use calude_proxy.Error.{Result, ok, err, invalid, ok_or, ◌>>=◌}
use calude_proxy.Json.{Value, null, string, object, obj, arr, get, as_str, unwrap_or}
use calude_proxy.Domain.{
  NormalizedRequest, NormalizedMessage, MessageRole, InputBlock, image, tool_result, tool_use,
  ImageData, base64, url,
}
use calude_proxy.Domain

-- The two lists that a user or system message is sorted into.
pub record Parts : Type 0 where
  pub content : List Value
  pub tool_results : List Value

abbrev pub text_part : String → Value
text_part t = obj (("type", string "text") ∷ ("text", string t) ∷ [])

abbrev pub image_url : String → ImageData → String
image_url media_type (base64 encoded) = "data:" ⧺ media_type ⧺ ";base64," ⧺ encoded
image_url media_type (url u) = u

abbrev pub image_part : String → Value
image_part u = obj (("type", string "image_url") ∷ ("image_url", obj (("url", string u) ∷ [])) ∷ [])

abbrev pub tool_message : String → String → Value
tool_message id content =
    obj (("role", string "tool") ∷ ("tool_call_id", string id) ∷ ("content", string content) ∷ [])

-- The body of the loop over the blocks of a user or system message.
unfoldable pub add_block : Parts → InputBlock → Result Parts
add_block p (Domain.InputBlock.text t) = ok (record p { content = p.content ++ text_part t ∷ [] })
add_block p (image media_type image_data) =
    ok (record p { content = p.content ++ image_part (image_url media_type image_data) ∷ [] })
add_block p (tool_result id content is_error) = do
  value ← ok_or (as_str content) (invalid "tool result content must be a string")
  let shown = if is_error then "Error: " ⧺ value else value
  ok (record p { tool_results = p.tool_results ++ tool_message id shown ∷ [] })
add_block p (tool_use id name input) =
    err (invalid "tool_use blocks are only valid in assistant messages")

unfoldable pub add_blocks : Parts → List InputBlock → Result Parts
add_blocks p [] = ok p
add_blocks p (block ∷ rest) = do q ← add_block p block; add_blocks q rest

-- A single text part is sent as a plain string.
abbrev pub is_text_part : Value → Bool
is_text_part part = elim (get part "type") [
  | none ↦ false
  | some kind ↦ elim (as_str kind) [ none ↦ false | some s ↦ s =? "text" ]
]

abbrev pub joined_content : List Value → Value
joined_content [] = arr []
joined_content (part ∷ []) =
    if is_text_part part then unwrap_or (get part "text") null else arr (part ∷ [])
joined_content (part ∷ other ∷ rest) = arr (part ∷ other ∷ rest)

abbrev pub role_message : String → List Value → List Value
role_message role [] = []
role_message role (part ∷ rest) =
    obj (("role", string role) ∷ ("content", joined_content (part ∷ rest)) ∷ []) ∷ []

-- The arm for `System` and `User`.
unfoldable pub convert_user : String → List InputBlock → Result (List Value)
convert_user role blocks = do
  p ← add_blocks (record { content = []; tool_results = [] }) blocks
  ok (p.tool_results ++ role_message role p.content)

-- What an assistant message is gathered into.
pub record Turn : Type 0 where
  pub text : String
  pub calls : List Value

abbrev pub call_value : String → String → String → Value
call_value id name arguments = obj (
    ("id", string id)
    ∷ ("type", string "function")
    ∷ ("function", obj (("name", string name) ∷ ("arguments", string arguments) ∷ []))
    ∷ [])

abbrev pub turn_message : Turn → Value
turn_message t =
    let content = if is_blank t.text then null else string t.text in
    let head = ("role", string "assistant") ∷ ("content", content) ∷ [] in
    obj (if is_empty t.calls then head else head ++ ("tool_calls", arr t.calls) ∷ [])

module _ (to_string : Value → Option String) (print_error : Value → String) where
  unfoldable pub add_turn : Turn → InputBlock → Result Turn
  add_turn t (Domain.InputBlock.text part) = ok (record t { text = t.text ⧺ part })
  add_turn t (tool_use id name input) = do
    arguments ← ok_or (to_string input) (invalid (print_error input))
    ok (record t { calls = t.calls ++ call_value id name arguments ∷ [] })
  add_turn t (image media_type image_data) =
      err (invalid "assistant messages may contain only text and tool_use blocks")
  add_turn t (tool_result id content is_error) =
      err (invalid "assistant messages may contain only text and tool_use blocks")

  unfoldable pub add_turns : Turn → List InputBlock → Result Turn
  add_turns t [] = ok t
  add_turns t (block ∷ rest) = do u ← add_turn t block; add_turns u rest

  unfoldable pub convert_assistant : List InputBlock → Result (List Value)
  convert_assistant blocks = do
    t ← add_turns (record { text = ""; calls = [] }) blocks
    ok (turn_message t ∷ [])

  unfoldable pub convert_message : MessageRole → List InputBlock → Result (List Value)
  convert_message MessageRole.system blocks = convert_user "system" blocks
  convert_message MessageRole.user blocks = convert_user "user" blocks
  convert_message MessageRole.assistant blocks = convert_assistant blocks

  unfoldable pub convert_all : List NormalizedMessage → Result (List Value)
  convert_all [] = ok []
  convert_all (m ∷ rest) = do
    converted ← convert_message m.role m.blocks
    others ← convert_all rest
    ok (converted ++ others)

  unfoldable pub convert_messages : NormalizedRequest → Result (List Value)
  convert_messages request = convert_all request.messages
