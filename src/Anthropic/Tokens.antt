-- ===== src/Anthropic/Tokens.antt =====
-- `count_tokens` of src/anthropic.rs. `o200k_base` and `cl100k_base` stand for the tokenizers of
-- tiktoken-rs, each the number of tokens of a text or the message of the error in loading it;
-- `value_text` is how a JSON value is displayed. The sums are not bounded: a `u64` would wrap only
-- beyond 2^64 tokens.
pub mod Bounds
use calude_proxy.Base.{
  ℕ, ◌+◌, String, Bool, true, Option, none, some, List, [], ◌∷◌, ltb, ◌=?◌, if◌then◌else◌, ◌⧺◌,
}
use calude_proxy.Error.{Result, ok, err, invalid, ◌>>=◌}
use calude_proxy.Json.{Value, unwrap_or}
use calude_proxy.Domain.{
  NormalizedRequest, NormalizedMessage, InputBlock, ToolDefinition, image, tool_use, tool_result,
}
use calude_proxy.Domain

pub data Tokenizer : Type 0 where
  loaded : (encoded_len : String → ℕ) → Tokenizer
  broken : (message : String) → Tokenizer

abbrev pub initialized : Tokenizer → Result (String → ℕ)
initialized (loaded encoded_len) = ok encoded_len
initialized (broken message) = err (invalid ("failed to initialize tokenizer: " ⧺ message))

module _ (value_text : Value → String) (encoded_len : String → ℕ) where
  unfoldable pub block_tokens : InputBlock → ℕ
  block_tokens (Domain.InputBlock.text t) = encoded_len t
  block_tokens (image media_type image_data) = 85
  block_tokens (tool_use id name input) = encoded_len (name ⧺ value_text input) + 8
  block_tokens (tool_result id content is_error) = encoded_len (value_text content) + 4

  unfoldable pub blocks_tokens : List InputBlock → ℕ
  blocks_tokens [] = 0
  blocks_tokens (block ∷ rest) = block_tokens block + blocks_tokens rest

  unfoldable pub messages_tokens : List NormalizedMessage → ℕ
  messages_tokens [] = 0
  messages_tokens (message ∷ rest) = 4 + blocks_tokens message.blocks + messages_tokens rest

  unfoldable pub tools_tokens : List ToolDefinition → ℕ
  tools_tokens [] = 0
  tools_tokens (tool ∷ rest) =
      encoded_len (tool.name ⧺ unwrap_or tool.description "" ⧺ value_text tool.input_schema)
      + 8
      + tools_tokens rest

module _ (o200k_base cl100k_base : Tokenizer) (value_text : Value → String) where
  unfoldable pub tokenizer_for : String → Result (String → ℕ)
  tokenizer_for tokenizer =
      if tokenizer =? "o200k_base"
      then initialized o200k_base
      else if tokenizer =? "cl100k_base"
      then initialized cl100k_base
      else err (invalid ("unsupported tokenizer profile " ⧺ tokenizer))

  unfoldable pub count_tokens : NormalizedRequest → (tokenizer : String) → Result ℕ
  count_tokens request tokenizer = do
    encoded_len ← tokenizer_for tokenizer
    let tokens =
        3
        + messages_tokens value_text encoded_len request.messages
        + tools_tokens value_text encoded_len request.tools
    ok (if ltb tokens 1 then 1 else tokens)
