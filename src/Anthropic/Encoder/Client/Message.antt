-- ===== src/Anthropic/Encoder/Client/Message.antt =====
-- The message that the events of a provider stand for, said apart from how the encoder works.
use calude_proxy.Base.{
  ℕ, zero, suc, ◌+◌, String, Option, none, some, List, [], ◌∷◌, ◌⧺◌, ◌==◌, if◌then◌else◌,
}
use calude_proxy.Domain.{ProviderEvent, StopReason}
use calude_proxy.Anthropic.Encoder.Client.{Block, Reader, complete}

-- All of the text, if there is any event with text.
unfoldable pub spoken : Option String → List ProviderEvent → Option String
spoken so_far [] = so_far
spoken none (ProviderEvent.text more ∷ rest) = spoken (some more) rest
spoken (some t) (ProviderEvent.text more ∷ rest) = spoken (some (t ⧺ more)) rest
spoken so_far (event ∷ rest) = spoken so_far rest

-- A call: its id, its name and its arguments.
abbrev pub Call : Type 0
Call = String × String × String

-- The call with an index after one more event: a start begins it anew, with no arguments yet, and a
-- delta is put behind the arguments that it has.
unfoldable pub call_after : ℕ → Option Call → ProviderEvent → Option Call
call_after k call (ProviderEvent.tool_start index id name) =
    if k == index then some (id, name, "") else call
call_after k none (ProviderEvent.tool_delta index more) = none
call_after k (some (id, name, arguments)) (ProviderEvent.tool_delta index more) =
    if k == index then some (id, name, arguments ⧺ more) else some (id, name, arguments)
call_after k call event = call

unfoldable pub call_at : ℕ → Option Call → List ProviderEvent → Option Call
call_at k call [] = call
call_at k call (event ∷ rest) = call_at k (call_after k call event) rest

-- A number above the index of every call.
unfoldable pub bound : List ProviderEvent → ℕ
bound [] = 0
bound (ProviderEvent.tool_start index id name ∷ rest) = suc (index + bound rest)
bound (event ∷ rest) = bound rest

abbrev pub shown : Option Call → List Block → List Block
shown none rest = rest
shown (some (id, name, arguments)) rest = Block.tool_use id name arguments ∷ rest

-- The calls with `n` indices from `k` on, in the order of the indices.
unfoldable pub calls_from : (ℕ → Option Call) → (k n : ℕ) → List Block
calls_from call k zero = []
calls_from call k (suc n) = shown (call k) (calls_from call (suc k) n)

-- The output tokens of the last usage that is reported.
unfoldable pub reported : ℕ → List ProviderEvent → ℕ
reported tokens [] = tokens
reported tokens (ProviderEvent.usage usage ∷ rest) = reported usage.output_tokens rest
reported tokens (ProviderEvent.finished reason (some usage) ∷ rest) =
    reported usage.output_tokens rest
reported tokens (event ∷ rest) = reported tokens rest

-- The stop reason as the Anthropic protocol spells it.
unfoldable pub spelling : StopReason → String
spelling StopReason.end_turn = "end_turn"
spelling StopReason.max_tokens = "max_tokens"
spelling StopReason.tool_use = "tool_use"
spelling StopReason.refusal = "refusal"

-- The stop reason of the event that ends the message.
unfoldable pub stopped_by : String → List ProviderEvent → String
stopped_by reason [] = reason
stopped_by reason (ProviderEvent.finished last usage ∷ rest) = stopped_by (spelling last) rest
stopped_by reason (event ∷ rest) = stopped_by reason rest

-- The text first, then the calls; an empty text if there is neither.
unfoldable pub content_of : Option String → List Block → List Block
content_of (some t) calls = Block.text t ∷ calls
content_of none [] = Block.text "" ∷ []
content_of none (call ∷ calls) = call ∷ calls

-- What a client should have at the end.
abbrev pub message_of : List ProviderEvent → Reader
message_of events =
    complete
      (content_of (spoken none events) (calls_from (λ k. call_at k none events) 0 (bound events)))
      (stopped_by "" events) (reported 0 events)
