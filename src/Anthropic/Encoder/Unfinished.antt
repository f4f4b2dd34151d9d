-- ===== src/Anthropic/Encoder/Unfinished.antt =====
-- The encoder sends `message_stop` for `Finished` only.
use calude_proxy.Base.{
  ◌≡◌, refl, Bool, true, false, not, ◌&&◌, List, [], ◌∷◌, ◌++◌, any, ◌=?◌, Bool-cases, Option-cases,
  inl, inr,
}
use calude_proxy.Domain.{ProviderEvent, is_finished}
use calude_proxy.Anthropic.Encoder.{Frame, StreamEncoder, encode, encode_all}

-- None of the events is `message_stop`.
unfoldable pub unstopped : List Frame → Bool
unstopped [] = true
unstopped (frame ∷ rest) = not (frame.event =? "message_stop") && unstopped rest

unstopped-append :
    (xs ys : List Frame) → unstopped xs ≡ true → unstopped ys ≡ true → unstopped (xs ++ ys) ≡ true
unfolding unstopped
unstopped-append [] ys h k = k
unstopped-append (x ∷ xs) ys h k = elim (Bool-cases (x.event =? "message_stop")) [
  | inl stops ↦ let never = rw stops at h in cc
  | inr goes_on ↦ rw goes_on (unstopped-append xs ys (rw goes_on at h) k)
]

encode-unstopped :
    (s : StreamEncoder) (event : ProviderEvent)
    → is_finished event ≡ false
    → unstopped ((encode s event).1) ≡ true
unfolding encode is_finished unstopped
encode-unstopped s (ProviderEvent.text t) h = elim (Option-cases s.text_block) [
  | inl closed ↦ rw closed refl
  | inr (index, open_at) ↦ rw open_at refl
]
encode-unstopped s (ProviderEvent.tool_start index id name) h = refl
encode-unstopped s (ProviderEvent.tool_delta index more) h = refl
encode-unstopped s (ProviderEvent.usage last) h = refl
encode-unstopped s (ProviderEvent.finished reason last) h = cc

pub encode_all-unstopped :
    (s : StreamEncoder) (events : List ProviderEvent)
    → any is_finished events ≡ false
    → unstopped ((encode_all s events).1) ≡ true
unfolding encode_all
encode_all-unstopped s [] h = unfold unstopped in refl
encode_all-unstopped s (event ∷ rest) h = elim (Bool-cases (is_finished event)) [
  | inl ends ↦ let never = rw ends at h in cc
  | inr goes_on ↦
      unstopped-append (encode s event).1 (encode_all (encode s event).0 rest).1
        (encode-unstopped s event goes_on)
        (encode_all-unstopped (encode s event).0 rest (rw goes_on at h))
]
