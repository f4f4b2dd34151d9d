-- ===== src/Anthropic/Blocks.antt =====
-- src/anthropic.rs: the blocks of a message: texts, images, tool calls and tool results.
-- `base64_valid` stands for the decoder of the base64 crate and `url_scheme` for the URL parser of
-- reqwest, which finds the scheme of a valid URL.
pub mod Filled
pub mod Loose
use calude_proxy.Base.{
  ℕ, suc, ◌+◌, String, Bool, true, false, not, Option, none, some, List, [], ◌∷◌, is_empty, one_of,
  decimal, if◌then◌else◌, ◌=?◌, ◌⧺◌,
}
use calude_proxy.Error.{Result, ok, err, invalid, ok_or, reject_if, ◌>>=◌, ◌>>◌}
use calude_proxy.Json.{
  Value, string, array, items, as_object, as_array, as_str, as_bool, is_object, is_null, lookup,
  get, and_then, unwrap_or,
}
use calude_proxy.Domain.{InputBlock, ImageData}
use calude_proxy.Anthropic.Fields.{unknown_key, refuse_key, required_str, ensure_only, each}

abbrev pub has_text_type : Value → Bool
has_text_type block = elim (and_then (get block "type") as_str) [
  | some kind ↦ kind =? "text"
  | none ↦ false
]

-- The body of the closure in `parse_system`.
pub system_block : Bool → ℕ → Value → Result InputBlock
system_block strict index block =
    let path = "system[" ⧺ decimal index ⧺ "]" in
    do
      reject_if (not (has_text_type block)) (invalid (path ⧺ " must be a text block"))
      text ← required_str block "text" path
      ensure_only block ("type" ∷ "text" ∷ "cache_control" ∷ []) path strict
      ok (InputBlock.text text)

pub parse_system : Value → Bool → Result (List InputBlock)
parse_system (string text) strict = ok (InputBlock.text text ∷ [])
parse_system (array blocks) strict = each (system_block strict) 0 (items blocks)
parse_system _ strict = err (invalid "system must be a string or an array of text blocks")

abbrev pub media_types : List String
media_types = "image/jpeg" ∷ "image/png" ∷ "image/gif" ∷ "image/webp" ∷ []

-- The other arms of the `match kind` in `parse_content`.
abbrev pub text_input : Value → String → Bool → Result InputBlock
text_input block path strict = do
  ensure_only block ("type" ∷ "text" ∷ "cache_control" ∷ "citations" ∷ []) path strict
  reject_if (elim (get block "citations") [ none ↦ false | some value ↦ not (is_null value) ])
      (invalid (path ⧺ ".citations is unsupported"))
  text ← required_str block "text" path
  ok (InputBlock.text text)

abbrev pub object_input : Option Value → Option Value
object_input none = none
object_input (some value) = if is_object value then some value else none

abbrev pub tool_use_input : Value → String → Bool → Result InputBlock
tool_use_input block path strict = do
  ensure_only block ("type" ∷ "id" ∷ "name" ∷ "input" ∷ "cache_control" ∷ []) path strict
  id ← required_str block "id" path
  name ← required_str block "name" path
  input ← ok_or (object_input (get block "input")) (invalid (path ⧺ ".input must be an object"))
  ok (InputBlock.tool_use id name input)

abbrev pub tool_result_input : Value → String → Bool → Result InputBlock
tool_result_input block path strict = do
  ensure_only block ("type" ∷ "tool_use_id" ∷ "content" ∷ "is_error" ∷ "cache_control" ∷ []) path
      strict
  tool_use_id ← required_str block "tool_use_id" path
  ok (
      InputBlock.tool_result tool_use_id (unwrap_or (get block "content") (string ""))
        (unwrap_or (and_then (get block "is_error") as_bool) false))

abbrev pub content_of : Value → String → Result (List Value)
content_of value prefix =
    ok_or (as_array value) (invalid (prefix ⧺ ".content must be a string or array"))

-- The arms `"base64"` and `"url"` of `parse_image`.
abbrev pub base64_image : (String → Bool) → List (String × Value) → String → Result InputBlock
base64_image base64_valid source path = do
  refuse_key (unknown_key ("type" ∷ "media_type" ∷ "data" ∷ []) source)
      (λ key. path ⧺ ".source." ⧺ key ⧺ " is unsupported")
  media_type ←
      ok_or (and_then (lookup "media_type" source) as_str)
        (invalid (path ⧺ ".source.media_type is required"))
  reject_if (not (one_of media_type media_types))
      (invalid (path ⧺ ".source.media_type is unsupported"))
  data' ←
      ok_or (and_then (lookup "data" source) as_str) (invalid (path ⧺ ".source.data is required"))
  reject_if (not (base64_valid data')) (invalid (path ⧺ ".source.data is not valid base64"))
  ok (InputBlock.image media_type (ImageData.base64 data'))

abbrev pub url_image : (String → Option String) → List (String × Value) → String → Result InputBlock
url_image url_scheme source path = do
  refuse_key (unknown_key ("type" ∷ "url" ∷ []) source)
      (λ key. path ⧺ ".source." ⧺ key ⧺ " is unsupported")
  url ← ok_or (and_then (lookup "url" source) as_str) (invalid (path ⧺ ".source.url is required"))
  scheme ← ok_or (url_scheme url) (invalid (path ⧺ ".source.url is invalid"))
  reject_if (not (one_of scheme ("http" ∷ "https" ∷ [])))
      (invalid (path ⧺ ".source.url must use HTTP or HTTPS"))
  ok (InputBlock.image "application/octet-stream" (ImageData.url url))

module _ (base64_valid : String → Bool) (url_scheme : String → Option String) where
  abbrev pub parse_image : Value → String → Bool → Result InputBlock
  parse_image block path strict = do
    ensure_only block ("type" ∷ "source" ∷ "cache_control" ∷ []) path strict
    source ←
        ok_or (and_then (get block "source") as_object)
          (invalid (path ⧺ ".source must be an object"))
    source_type ←
        ok_or (and_then (lookup "type" source) as_str) (invalid (path ⧺ ".source.type is required"))
    if source_type =? "base64"
        then base64_image base64_valid source path
        else if source_type =? "url"
        then url_image url_scheme source path
        else err (invalid (path ⧺ ".source type " ⧺ source_type ⧺ " is unsupported"))

  -- The body of the loop in `parse_content`.
  unfoldable pub parse_block : Bool → String → Value → Result InputBlock
  parse_block strict path block = do
    kind ← required_str block "type" path
    if kind =? "text"
        then text_input block path strict
        else if kind =? "image"
        then parse_image block path strict
        else if kind =? "tool_use"
        then tool_use_input block path strict
        else if kind =? "tool_result"
        then tool_result_input block path strict
        else err (invalid (path ⧺ " has unsupported content block type " ⧺ kind))

  unfoldable pub parse_content : Value → ℕ → Bool → Result (List InputBlock)
  parse_content (string text) message_index strict = ok (InputBlock.text text ∷ [])
  parse_content value message_index strict =
      let prefix = "messages[" ⧺ decimal message_index ⧺ "]" in
      do
        blocks ← content_of value prefix
        reject_if (is_empty blocks) (invalid (prefix ⧺ ".content must not be empty"))
        each (λ index. parse_block strict (prefix ⧺ ".content[" ⧺ decimal index ⧺ "]")) 0 blocks
