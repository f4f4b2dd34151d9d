-- ===== src/Provider/Body/Fields.antt =====
-- What the target reads in a body.
use calude_proxy.Base.{
  String, Bool, true, false, Option, none, some, List, ◌∷◌, ◌++◌, ◌≡◌, ◌≤◌, ◌≢◌, ◌⊎◌, inl, inr,
  refl, ◌∙◌, ap, arith, ◌=?◌, Bool-cases,
}
use calude_proxy.Error.{ok, >>=-eq-ok}
use calude_proxy.Json.{
  Value, bool, string, obj, arr, json_number, lookup, get, entries-from_entries,
}
use calude_proxy.Domain.{NormalizedRequest}
use calude_proxy.Config.{CapabilityProfile}
use calude_proxy.Provider.Adapt.{wants_parallel}
use calude_proxy.Provider.Adapt.Conforms.{Conforms}
use calude_proxy.Provider.Messages.{convert_messages}
use calude_proxy.Provider.Body.{
  Entries, float_field, stop_field, tools_field, choice_field, stream_fields, token_field,
  optional_fields, build_request,
}

-- The entries of a body, given its messages.
abbrev body_entries : CapabilityProfile → NormalizedRequest → String → Bool → List Value → Entries
body_entries caps r model stream messages =
    ("model", string model)
    ∷ ("messages", arr messages)
    ∷ (token_field caps, json_number r.max_tokens)
    ∷ (optional_fields r ++ stream_fields stream)

-- The token limit of the request under the one name that the profile wants.
abbrev TokensNamed : CapabilityProfile → NormalizedRequest → Value → Type 0
TokensNamed caps r body =
    ((caps.use_max_completion_tokens ≡ true)
      × (get body "max_completion_tokens" ≡ some (json_number r.max_tokens))
      × (get body "max_tokens" ≡ none))
    ⊎ ((caps.use_max_completion_tokens ≡ false)
        × (get body "max_tokens" ≡ some (json_number r.max_tokens))
        × (get body "max_completion_tokens" ≡ none))

module _ (caps : CapabilityProfile) (r : NormalizedRequest) (model : String) (stream : Bool)
    (messages : List Value) where
  abbrev field_of : String → Option Value
  field_of k = get (obj (body_entries caps r model stream messages)) k

  field_of-lookup : (k : String) → field_of k ≡ lookup k (body_entries caps r model stream messages)
  field_of-lookup k =
      ap (lookup k) (entries-from_entries (body_entries caps r model stream messages))

  -- An optional entry stands behind the three that every body has.
  past_head :
      (k : String)
      → ("model" =? k) ≡ false
      → ("messages" =? k) ≡ false
      → ("max_tokens" =? k) ≡ false
      → ("max_completion_tokens" =? k) ≡ false
      → field_of k ≡ lookup k (optional_fields r ++ stream_fields stream)
  unfolding token_field
  past_head k a b c d = field_of-lookup k ∙ ground arith

  temperature_absent :
      Conforms caps r → (caps.supports_temperature ≡ true) ⊎ (field_of "temperature" ≡ none)
  unfolding optional_fields float_field stop_field tools_field choice_field stream_fields
  temperature_absent c = rw (past_head "temperature" refl refl refl refl) (ground arith)

  top_p_absent : Conforms caps r → (caps.supports_top_p ≡ true) ⊎ (field_of "top_p" ≡ none)
  unfolding optional_fields float_field stop_field tools_field choice_field stream_fields
  top_p_absent c = rw (past_head "top_p" refl refl refl refl) (ground arith)

  stop_absent : Conforms caps r → (caps.supports_stop ≡ true) ⊎ (field_of "stop" ≡ none)
  unfolding optional_fields float_field stop_field tools_field choice_field stream_fields
  stop_absent c = rw (past_head "stop" refl refl refl refl) (ground arith)

  tools_absent : Conforms caps r → (caps.tools ≡ true) ⊎ (field_of "tools" ≡ none)
  unfolding optional_fields float_field stop_field tools_field choice_field stream_fields
  tools_absent c = rw (past_head "tools" refl refl refl refl) (ground arith)

  parallel_field :
      lookup "parallel_tool_calls" (optional_fields r ++ stream_fields stream)
      ≡ lookup "parallel_tool_calls" (choice_field r.tool_choice)
  unfolding optional_fields float_field stop_field tools_field choice_field stream_fields
  parallel_field = ground arith

  parallel_off :
      Conforms caps r
      → (caps.parallel_tools ≡ true) ⊎ (field_of "parallel_tool_calls" ≢ some (bool true))
  unfolding choice_field wants_parallel
  parallel_off c =
      rw (past_head "parallel_tool_calls" refl refl refl refl, parallel_field) (ground arith)

  stream_kept : field_of "stream" ≡ some (bool stream)
  unfolding optional_fields float_field stop_field tools_field choice_field stream_fields
  stream_kept = rw (past_head "stream" refl refl refl refl) (ground arith)

  tokens_kept : TokensNamed caps r (obj (body_entries caps r model stream messages))
  unfolding token_field optional_fields float_field stop_field tools_field choice_field
      stream_fields
  tokens_kept = elim (Bool-cases caps.use_max_completion_tokens) [
    | inl long ↦ inl (
      long,
      field_of-lookup "max_completion_tokens" ∙ rw long refl,
      field_of-lookup "max_tokens" ∙ rw long (ground arith),
    )
    | inr short ↦ inr (
      short,
      field_of-lookup "max_tokens" ∙ rw short refl,
      field_of-lookup "max_completion_tokens" ∙ rw short (ground arith),
    )
  ]

-- A body for the model and the request that keeps to the profile.
abbrev pub BodyConforms :
    CapabilityProfile → NormalizedRequest → (model : String) (stream : Bool) → Value → Type 0
BodyConforms caps r model stream body =
    (get body "model" ≡ some (string model))
    × (get body "stream" ≡ some (bool stream))
    × TokensNamed caps r body
    × (r.max_tokens ≤ caps.max_output_tokens)
    × ((caps.supports_temperature ≡ true) ⊎ (get body "temperature" ≡ none))
    × ((caps.supports_top_p ≡ true) ⊎ (get body "top_p" ≡ none))
    × ((caps.supports_stop ≡ true) ⊎ (get body "stop" ≡ none))
    × ((caps.tools ≡ true) ⊎ (get body "tools" ≡ none))
    × ((caps.parallel_tools ≡ true) ⊎ (get body "parallel_tool_calls" ≢ some (bool true)))

-- What the target of a conforming request is asked for: the given model and streaming flag; the
-- request's token limit, which is within that of the profile, as `max_completion_tokens` if the
-- profile uses that name and else as `max_tokens`, and never as both; and no temperature, top_p,
-- stop sequences, tools or parallel tool calls where the profile does not support them.
pub build_request-Conforms :
    (to_string : Value → Option String) (print_error : Value → String) (caps : CapabilityProfile)
    (request : NormalizedRequest) (model : String) (stream : Bool) (body : Value)
    → Conforms caps request
    → build_request to_string print_error caps request model stream ≡ ok body
    → BodyConforms caps request model stream body
unfolding build_request
build_request-Conforms to_string print_error caps r model stream body c h =
    let (messages, e, h1) = >>=-eq-ok (convert_messages to_string print_error r) _ h in
    let whole : obj (body_entries caps r model stream messages) ≡ body = cc h1 in
    rw (← whole) (
      field_of-lookup caps r model stream messages "model",
      stream_kept caps r model stream messages,
      tokens_kept caps r model stream messages,
      c.max_tokens,
      temperature_absent caps r model stream messages c,
      top_p_absent caps r model stream messages c,
      stop_absent caps r model stream messages c,
      tools_absent caps r model stream messages c,
      parallel_off caps r model stream messages c,
    )
