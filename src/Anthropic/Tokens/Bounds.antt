-- ===== src/Anthropic/Tokens/Bounds.antt =====
-- How the count of a request relates to its parts.
use calude_proxy.Base.{ℕ, ◌+◌, ◌*◌, ◌≤◌, ◌≡◌, String, List, [], ◌∷◌, ◌++◌, length, arith}
use calude_proxy.Error.{ok, >>=-eq-ok}
use calude_proxy.Json.{Value}
use calude_proxy.Domain.{NormalizedRequest, NormalizedMessage, ToolDefinition}
use calude_proxy.Anthropic.Tokens.{
  Tokenizer, messages_tokens, tools_tokens, tokenizer_for, count_tokens,
}

module _ (value_text : Value → String) (encoded_len : String → ℕ) where
  messages-append :
      (ms ns : List NormalizedMessage)
      → messages_tokens value_text encoded_len (ms ++ ns)
        ≡ messages_tokens value_text encoded_len ms + messages_tokens value_text encoded_len ns
  unfolding messages_tokens
  messages-append [] ns = omega arith
  messages-append (m ∷ ms) ns = omega (arith, messages-append ms ns)

  messages-floor :
      (ms : List NormalizedMessage) → 4 * length ms ≤ messages_tokens value_text encoded_len ms
  unfolding messages_tokens
  messages-floor [] = omega arith
  messages-floor (m ∷ ms) = omega (arith, messages-floor ms)

  tools-floor : (ts : List ToolDefinition) → 8 * length ts ≤ tools_tokens value_text encoded_len ts
  unfolding tools_tokens
  tools-floor [] = omega arith
  tools-floor (t ∷ ts) = omega (arith, tools-floor ts)

module _ (o200k_base cl100k_base : Tokenizer) (value_text : Value → String) where
  -- A request that is counted has at least three tokens, four more for each message and eight for
  -- each tool, so that the last step, which makes the count at least one, never changes it. More
  -- messages at its end add what they count by themselves, less the three.
  pub count_tokens_lem :
      (request : NormalizedRequest) (more : List NormalizedMessage) (tokenizer : String) {n : ℕ}
      → count_tokens o200k_base cl100k_base value_text request tokenizer ≡ ok n
      → (3 + 4 * length request.messages + 8 * length request.tools ≤ n)
        × (k : ℕ) × (count_tokens o200k_base cl100k_base value_text
              (record request { messages = more; tools = [] })
              tokenizer
            ≡ ok (k + 3))
        × (count_tokens o200k_base cl100k_base value_text
              (record request { messages = request.messages ++ more })
              tokenizer
            ≡ ok (n + k))
  unfolding count_tokens tools_tokens
  count_tokens_lem request more tokenizer {n} h =
      let (len, e, h1) =
        >>=-eq-ok (tokenizer_for o200k_base cl100k_base value_text tokenizer) _ h in
      let count =
        messages_tokens value_text len request.messages
        + tools_tokens value_text len request.tools in
      let same : 3 + count ≡ n = ground arith in
      (
        omega (
          arith,
          messages-floor value_text len request.messages,
          tools-floor value_text len request.tools,
        ),
        messages_tokens value_text len more,
        rw e (ground arith),
        rw (e, messages-append value_text len request.messages more) (ground arith),
      )
