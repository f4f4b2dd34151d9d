-- ===== src/Anthropic/Encoder/Client/Follows.antt =====
-- The client follows every stream that the encoder writes, by the encoder's own account of it.
use text.Mathlib.TextLemmas.{nil-append}
use mathlib.Core.List.{append-nil, append_assoc}
use calude_proxy.Base.{
  ℕ, ◌+◌, ◌≡◌, refl, ap, ◌∙◌, String, true, false, Option, none, some, List, [], ◌∷◌, ◌++◌,
  Option-cases, inl, inr, length, length-append, any, Bool-cases, ◌==◌, arith,
}
use calude_proxy.Json.{and_then}
use calude_proxy.Domain.{ProviderEvent, StopReason, Usage, is_finished}
use calude_proxy.Domain.{as_str as reason_name}
use calude_proxy.Anthropic.Encoder.{
  Frame, Tools, StreamEncoder, start, encode, encode_all, tool_frames, text_frames, message_delta,
  message_stop,
}
use calude_proxy.Anthropic.Encoder.Client.{
  Block, Reader, waiting, between, within, complete, read_one, read,
}
use calude_proxy.Anthropic.Encoder.Client.Draft.{
  Draft, empty_draft, note, note_all, tool_blocks, content,
}

read-append :
    (r : Reader) (xs ys : List Frame)
    → read r (xs ++ ys) ≡ and_then (read r xs) (λ next. read next ys)
unfolding read
read-append r [] ys = refl
read-append r (frame ∷ rest) ys = elim (Option-cases (read_one r frame)) [
  | inl stuck ↦ rw (stuck)
  | inr (next, reads) ↦ rw (reads) (read-append next rest ys)
]

same : (n : ℕ) → (n == n) ≡ true
same n = ground arith

-- The encoder and the client after events that add up to a draft.
blocks_before : Option String → ℕ
blocks_before none = 0
blocks_before (some t) = 1

text_index : Option String → Option ℕ
text_index none = none
text_index (some t) = some 0

encoder : Draft → StreamEncoder
encoder d = record {
  next_block = blocks_before d.text;
  text_block = text_index d.text;
  tools = d.tools;
  input_tokens = d.input_tokens;
  output_tokens = d.output_tokens;
}

reader : Option String → Reader
reader none = between []
reader (some t) = within [] (Block.text t)

abbrev draft : Option String → Tools → ℕ → ℕ → Draft
draft t ts i o = record { text = t; tools = ts; input_tokens = i; output_tokens = o }

step-encoder :
    (t : Option String) (ts : Tools) (i o : ℕ) (e : ProviderEvent)
    → is_finished e ≡ false
    → (encode (encoder (draft t ts i o)) e).0 ≡ encoder (note (draft t ts i o) e)
unfolding encode encoder note is_finished blocks_before text_index
step-encoder none ts i o (ProviderEvent.text more) h = refl
step-encoder (some t) ts i o (ProviderEvent.text more) h = refl
step-encoder t ts i o (ProviderEvent.tool_start index id name) h = refl
step-encoder t ts i o (ProviderEvent.tool_delta index more) h = refl
step-encoder t ts i o (ProviderEvent.usage usage) h = refl
step-encoder t ts i o (ProviderEvent.finished reason usage) h = cc

step-read :
    (t : Option String) (ts : Tools) (i o : ℕ) (e : ProviderEvent)
    → is_finished e ≡ false
    → read (reader t) ((encode (encoder (draft t ts i o)) e).1)
      ≡ some (reader ((note (draft t ts i o) e).text))
unfolding encode encoder note is_finished reader read read_one blocks_before text_index
step-read none ts i o (ProviderEvent.text more) h = refl
step-read (some t) ts i o (ProviderEvent.text more) h = refl
step-read t ts i o (ProviderEvent.tool_start index id name) h = refl
step-read t ts i o (ProviderEvent.tool_delta index more) h = refl
step-read t ts i o (ProviderEvent.usage usage) h = refl
step-read t ts i o (ProviderEvent.finished reason usage) h = cc

tool_frames-read :
    (blocks : List Block) (tools : Tools)
    → read (between blocks) ((tool_frames (length blocks) tools).1)
      ≡ some (between (blocks ++ tool_blocks tools))
unfolding read read_one tool_frames tool_blocks
tool_frames-read blocks [] = rw append-nil
tool_frames-read blocks ((k, tool) ∷ rest) =
    let block = Block.tool_use tool.id tool.name tool.arguments in
    let later = tool_frames-read (blocks ++ block ∷ []) rest in
    let longer : length (blocks ++ block ∷ []) ≡ length blocks + 1 =
      length-append blocks (block ∷ []) in
    rw (same (length blocks), same (length blocks), same (length blocks), nil-append, ← longer)
      (later ∙ ap (λ bs. some (between bs)) (append_assoc blocks (block ∷ []) (tool_blocks rest)))

text_frames-read :
    (t : Option String) (tools : Tools)
    → (blocks : List Block) × (read
          (reader t)
          ((text_frames (text_index t) tools (blocks_before t)).1)
        ≡ some (between blocks))
      × ((text_frames (text_index t) tools (blocks_before t)).0 ≡ length blocks)
      × (blocks ++ tool_blocks tools ≡ content t tools)
unfolding text_frames text_index blocks_before content reader read read_one
text_frames-read (some t) tools = (Block.text t ∷ [], refl, refl, refl)
text_frames-read none [] = (Block.text "" ∷ [], refl, refl, unfold tool_blocks in refl)
text_frames-read none (tool ∷ rest) = ([], refl, refl, refl)

end-read :
    (blocks : List Block) (reason : StopReason) (tokens : ℕ)
    → read (between blocks) (message_delta reason tokens ∷ message_stop ∷ [])
      ≡ some (complete blocks (reason_name reason) tokens)
unfolding read read_one
end-read blocks reason tokens = refl

finish_frames-read :
    (t : Option String) (ts : Tools) (reason : StopReason) (tokens : ℕ)
    → let text = text_frames (text_index t) ts (blocks_before t) in
      read
        (reader t)
        (text.1 ++ (tool_frames text.0 ts).1 ++ message_delta reason tokens ∷ message_stop ∷ [])
      ≡ some (complete (content t ts) (reason_name reason) tokens)
finish_frames-read t ts reason tokens =
    let (blocks, text_read, counted, split) = text_frames-read t ts in
    rw (read-append, read-append, text_read, counted, tool_frames-read, end-read, split)

finish-read :
    (t : Option String) (ts : Tools) (i o : ℕ) (reason : StopReason) (usage : Option Usage)
    → let last = note (draft t ts i o) (ProviderEvent.finished reason usage) in
      read (reader t) ((encode (encoder (draft t ts i o)) (ProviderEvent.finished reason usage)).1)
      ≡ some (complete (content last.text last.tools) (reason_name reason) last.output_tokens)
unfolding encode encoder note
finish-read t ts i o reason none = finish_frames-read t ts reason o
finish-read t ts i o reason (some usage) = finish_frames-read t ts reason usage.output_tokens

encode_all-read :
    (d : Draft) (events : List ProviderEvent) (reason : StopReason) (usage : Option Usage)
    → any is_finished events ≡ false
    → let last = note_all d (events ++ ProviderEvent.finished reason usage ∷ []) in
      read
        (reader d.text)
        ((encode_all (encoder d) (events ++ ProviderEvent.finished reason usage ∷ [])).1)
      ≡ some (complete (content last.text last.tools) (reason_name reason) last.output_tokens)
unfolding encode_all note_all
encode_all-read d [] reason usage h =
    rw append-nil (finish-read d.text d.tools d.input_tokens d.output_tokens reason usage)
encode_all-read d (e ∷ rest) reason usage h = elim (Bool-cases (is_finished e)) [
  | inl ends ↦ let none_left = rw ends at h in cc
  | inr goes_on ↦
      rw
        (
          read-append,
          step-read d.text d.tools d.input_tokens d.output_tokens e goes_on,
          step-encoder d.text d.tools d.input_tokens d.output_tokens e goes_on,
        )
        (encode_all-read (note d e) rest reason usage (rw goes_on at h))
]

pub encode_all_draft :
    (message_id model : String) (input_tokens : ℕ) (events : List ProviderEvent)
    (reason : StopReason) (usage : Option Usage)
    → any is_finished events ≡ false
    → let (s, opening) = start message_id model input_tokens in
      let every = events ++ ProviderEvent.finished reason usage ∷ [] in
      let last = note_all (empty_draft input_tokens) every in
      read waiting (opening ++ (encode_all s every).1)
      ≡ some (complete (content last.text last.tools) (reason_name reason) last.output_tokens)
unfolding start read read_one empty_draft encoder reader text_index blocks_before
encode_all_draft message_id model input_tokens events reason usage h =
    encode_all-read (empty_draft input_tokens) events reason usage h
