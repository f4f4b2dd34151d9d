-- ===== src/Anthropic/Encoder/Client/Reads.antt =====
-- The client ends with the message that the events stand for.
use text.Mathlib.TextLemmas.{nil-append}
use calude_proxy.Base.{
  ℕ, ◌≡◌, refl, ◌∙◌, ap, sym, String, Bool, true, false, Option, none, some, List, [], ◌∷◌, ◌++◌,
  any, inl, inr, Option-cases, ◌+◌,
}
use calude_proxy.Domain.{ProviderEvent, StopReason, Usage, is_finished}
use calude_proxy.Domain.{as_str as reason_name}
use calude_proxy.Anthropic.Encoder.{Tools, start, encode_all}
use calude_proxy.Anthropic.Encoder.Client.{waiting, read}
use calude_proxy.Anthropic.Encoder.Client.Draft.{
  Draft, empty_draft, note, note_all, tool_blocks, content,
}
use calude_proxy.Anthropic.Encoder.Client.Follows.{encode_all_draft}
use calude_proxy.Anthropic.Encoder.Client.Calls.{
  find, Within, calls_from-ext, calls_from-tools, find-note_all, Within-note_all,
}
use calude_proxy.Anthropic.Encoder.Client.Message.{
  spoken, call_at, bound, calls_from, reported, spelling, stopped_by, content_of, message_of,
}

is_text : ProviderEvent → Bool
is_text (ProviderEvent.text more) = true
is_text _ = false

silent :
    (t : Option String) (event : ProviderEvent) (rest : List ProviderEvent)
    → is_text event ≡ false
    → spoken t rest ≡ spoken t (event ∷ rest)
unfolding spoken is_text
silent none (ProviderEvent.text more) rest h = cc
silent none (ProviderEvent.tool_start index id name) rest h = refl
silent none (ProviderEvent.tool_delta index more) rest h = refl
silent none (ProviderEvent.finished reason usage) rest h = refl
silent none (ProviderEvent.usage usage) rest h = refl
silent (some t) (ProviderEvent.text more) rest h = cc
silent (some t) (ProviderEvent.tool_start index id name) rest h = refl
silent (some t) (ProviderEvent.tool_delta index more) rest h = refl
silent (some t) (ProviderEvent.finished reason usage) rest h = refl
silent (some t) (ProviderEvent.usage usage) rest h = refl

text-note :
    (d : Draft) (event : ProviderEvent) (rest : List ProviderEvent)
    → spoken (note d event).text rest ≡ spoken d.text (event ∷ rest)
unfolding note spoken is_text
text-note d (ProviderEvent.text more) rest = elim (Option-cases d.text) [
  | inl no_text ↦ rw (no_text, nil-append) refl
  | inr (t, spoke) ↦ rw spoke refl
]
text-note d (ProviderEvent.tool_start index id name) rest =
    silent d.text (ProviderEvent.tool_start index id name) rest refl
text-note d (ProviderEvent.tool_delta index more) rest =
    silent d.text (ProviderEvent.tool_delta index more) rest refl
text-note d (ProviderEvent.finished reason none) rest =
    silent d.text (ProviderEvent.finished reason none) rest refl
text-note d (ProviderEvent.finished reason (some usage)) rest =
    silent d.text (ProviderEvent.finished reason (some usage)) rest refl
text-note d (ProviderEvent.usage usage) rest = silent d.text (ProviderEvent.usage usage) rest refl

text-note_all :
    (d : Draft) (events : List ProviderEvent) → (note_all d events).text ≡ spoken d.text events
unfolding note_all
text-note_all d [] = unfold spoken in refl
text-note_all d (event ∷ rest) = text-note_all (note d event) rest ∙ text-note d event rest

output_tokens-note :
    (d : Draft) (event : ProviderEvent) (rest : List ProviderEvent)
    → reported (note d event).output_tokens rest ≡ reported d.output_tokens (event ∷ rest)
unfolding note reported
output_tokens-note d (ProviderEvent.text more) rest = refl
output_tokens-note d (ProviderEvent.tool_start index id name) rest = refl
output_tokens-note d (ProviderEvent.tool_delta index more) rest = refl
output_tokens-note d (ProviderEvent.finished reason none) rest = refl
output_tokens-note d (ProviderEvent.finished reason (some usage)) rest = refl
output_tokens-note d (ProviderEvent.usage usage) rest = refl

output_tokens-note_all :
    (d : Draft) (events : List ProviderEvent)
    → (note_all d events).output_tokens ≡ reported d.output_tokens events
unfolding note_all
output_tokens-note_all d [] = unfold reported in refl
output_tokens-note_all d (event ∷ rest) =
    output_tokens-note_all (note d event) rest ∙ output_tokens-note d event rest

spelling-reason_name : (reason : StopReason) → spelling reason ≡ reason_name reason
unfolding spelling reason_name
spelling-reason_name StopReason.end_turn = refl
spelling-reason_name StopReason.max_tokens = refl
spelling-reason_name StopReason.tool_use = refl
spelling-reason_name StopReason.refusal = refl

stopped_by-append :
    (word : String) (events : List ProviderEvent) (reason : StopReason) (usage : Option Usage)
    → stopped_by word (events ++ ProviderEvent.finished reason usage ∷ []) ≡ reason_name reason
unfolding stopped_by
stopped_by-append word [] reason usage = spelling-reason_name reason
stopped_by-append word (ProviderEvent.text more ∷ rest) reason usage =
    stopped_by-append word rest reason usage
stopped_by-append word (ProviderEvent.tool_start index id name ∷ rest) reason usage =
    stopped_by-append word rest reason usage
stopped_by-append word (ProviderEvent.tool_delta index more ∷ rest) reason usage =
    stopped_by-append word rest reason usage
stopped_by-append word (ProviderEvent.finished last count ∷ rest) reason usage =
    stopped_by-append (spelling last) rest reason usage
stopped_by-append word (ProviderEvent.usage count ∷ rest) reason usage =
    stopped_by-append word rest reason usage

content-content_of :
    (t : Option String) (tools : Tools) → content t tools ≡ content_of t (tool_blocks tools)
unfolding content content_of tool_blocks
content-content_of (some t) tools = refl
content-content_of none [] = refl
content-content_of none (tool ∷ rest) = refl

-- The encoder's own account, put in terms of the events.
content-message :
    (input_tokens : ℕ) (events : List ProviderEvent)
    → let last = note_all (empty_draft input_tokens) events in
      content last.text last.tools
      ≡ content_of (spoken none events) (calls_from (λ k. call_at k none events) 0 (bound events))
unfolding empty_draft find Within
content-message input_tokens events =
    let d = empty_draft input_tokens in
    let last = note_all d events in
    content-content_of last.text last.tools
    ∙ ap (λ t. content_of t (tool_blocks last.tools)) (text-note_all d events)
    ∙ ap (content_of (spoken none events)) (
        sym (
          calls_from-tools 0 (bound events) (0 + bound events) last.tools
            (Within-note_all 0 d events tt) refl)
        ∙ calls_from-ext _ _ 0 (bound events) (λ k a. find-note_all k d events))

-- Whatever the provider sends before its last event, a client of the Anthropic protocol can follow
-- the stream that is made of it, from `message_start` to `message_stop`, and ends with exactly the
-- message that the events add up to: the pieces of text put together, if there is any, then the
-- calls in the order of their indices, each with the id and the name of the last start with its
-- index and all the arguments that came for it since, or else an empty text; with the stop reason
-- of the last event in the protocol's spelling, and the output tokens of the last usage that was
-- reported, or 0.
pub encode_all_lem :
    (message_id model : String) (input_tokens : ℕ) (events : List ProviderEvent)
    (reason : StopReason) (usage : Option Usage)
    → any is_finished events ≡ false
    → let (s, opening) = start message_id model input_tokens in
      let every = events ++ ProviderEvent.finished reason usage ∷ [] in
      read waiting (opening ++ (encode_all s every).1) ≡ some (message_of every)
encode_all_lem message_id model input_tokens events reason usage h =
    let every = events ++ ProviderEvent.finished reason usage ∷ [] in
    encode_all_draft message_id model input_tokens events reason usage h
    ∙ rw
        (
          content-message input_tokens every,
          stopped_by-append "" events reason usage,
          output_tokens-note_all (empty_draft input_tokens) every,
        )
        (unfold empty_draft in refl)
