-- ===== src/Anthropic/Encoder/Quiet.antt =====
-- The encoder sends no `error` event: that is left to the server.
use calude_proxy.Base.{
  ℕ, ◌+◌, ◌≡◌, refl, String, Bool, true, not, ◌&&◌, Option, none, some, List, [], ◌∷◌, ◌++◌, ◌=?◌,
  Bool-cases, Option-cases, inl, inr,
}
use calude_proxy.Domain.{ProviderEvent}
use calude_proxy.Anthropic.Encoder.{
  Frame, StreamEncoder, Tools, start, encode, text_frames, tool_frames, message_delta, message_stop,
  record_final,
}

unfoldable pub quiet : List Frame → Bool
quiet [] = true
quiet (frame ∷ rest) = not (frame.event =? "error") && quiet rest

pub quiet-append :
    (xs ys : List Frame) → quiet xs ≡ true → quiet ys ≡ true → quiet (xs ++ ys) ≡ true
unfolding quiet
quiet-append [] ys h k = k
quiet-append (x ∷ xs) ys h k = elim (Bool-cases (x.event =? "error")) [
  | inl loud ↦ let never = rw loud at h in cc
  | inr calm ↦ rw calm (quiet-append xs ys (rw calm at h) k)
]

quiet-tool_frames : (index : ℕ) (tools : Tools) → quiet (tool_frames index tools).1 ≡ true
unfolding quiet tool_frames
quiet-tool_frames index [] = refl
quiet-tool_frames index ((k, tool) ∷ rest) = quiet-tool_frames (index + 1) rest

quiet-text_frames :
    (open_at : Option ℕ) (tools : Tools) (next_block : ℕ)
    → quiet (text_frames open_at tools next_block).1 ≡ true
unfolding quiet text_frames
quiet-text_frames (some index) tools next_block = refl
quiet-text_frames none [] next_block = refl
quiet-text_frames none (tool ∷ rest) next_block = refl

pub quiet-encode : (s : StreamEncoder) (event : ProviderEvent) → quiet (encode s event).1 ≡ true
unfolding encode quiet
quiet-encode s (ProviderEvent.text t) = elim (Option-cases s.text_block) [
  | inl closed ↦ rw closed refl
  | inr (index, open_at) ↦ rw open_at refl
]
quiet-encode s (ProviderEvent.tool_start index id name) = refl
quiet-encode s (ProviderEvent.tool_delta index more) = refl
quiet-encode s (ProviderEvent.usage last) = refl
quiet-encode s (ProviderEvent.finished reason usage) =
    let updated = record_final usage s in
    let text = text_frames updated.text_block updated.tools updated.next_block in
    let tools = tool_frames text.0 updated.tools in
    let last = message_delta reason updated.output_tokens ∷ message_stop ∷ [] in
    quiet-append (text.1 ++ tools.1) last
      (quiet-append text.1 tools.1
        (quiet-text_frames updated.text_block updated.tools updated.next_block)
        (quiet-tool_frames text.0 updated.tools))
      refl

pub quiet-start :
    (message_id model : String) (input_tokens : ℕ)
    → quiet (start message_id model input_tokens).1 ≡ true
unfolding start quiet
quiet-start message_id model input_tokens = refl
