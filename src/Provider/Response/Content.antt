-- ===== src/Provider/Response/Content.antt =====
-- What a client gets for a reply of the target.
use text.Mathlib.TextEquality.{eq_iff}
use calude_proxy.Base.{
  String, Option, none, some, List, [], ◌∷◌, ◌≡◌, ◌≢◌, inl, inr, arith, Bool-cases, is_blank, subst,
  sym, Option-cases, true, ◌=?◌,
}
use calude_proxy.Error.{chosen, ok, ok_or, >>=-eq-ok}
use calude_proxy.Json.{Value}
use calude_proxy.Domain.{AnthropicResponse, OutputBlock, StopReason, as_str}
use calude_proxy.Provider.Response.{
  OpenAiResponse, OpenAiMessage, OpenAiChoice, OpenAiToolCall, ToolCall, map_reason,
  map_stop_reason, tool_blocks, text_block, response_content, shown_text, parse_calls,
  convert_response, first_choice, at_least_one,
}

first_choice_lem :
    (cs : List OpenAiChoice) (c : OpenAiChoice)
    → first_choice cs ≡ ok c
    → (rest : List OpenAiChoice) × (cs ≡ c ∷ rest)
first_choice_lem [] c h = cc
first_choice_lem (d ∷ rest) c h = (rest, cc)

-- What a message of the target tells: its text, or its refusal where it has no text.
pub told : (text refusal : Option String) → String
told (some text) refusal = text
told none (some refusal) = refusal
told none none = ""

-- The content for what is told and the blocks of the calls.
pub data Shows : (told : String) (calls content : List OutputBlock) → Type 0 where
  with_text :
      {t : String} {calls : List OutputBlock} → t ≢ "" → Shows t calls (OutputBlock.text t ∷ calls)
  calls_only : {calls : List OutputBlock} → calls ≢ [] → Shows "" calls calls
  nothing_said : Shows "" [] (OutputBlock.text "" ∷ [])

-- The reason to stop in the words of the two protocols: Chat Completions, and Anthropic's.
pub data Stops : Option String → String → Type 0 where
  unsaid : Stops none "end_turn"
  stopped : Stops (some "stop") "end_turn"
  at_limit : Stops (some "length") "max_tokens"
  calling : Stops (some "tool_calls") "tool_use"
  calling_function : Stops (some "function_call") "tool_use"
  filtered : Stops (some "content_filter") "refusal"

shown_calls : (calls : List OutputBlock) → Shows "" calls (at_least_one calls)
shown_calls [] = Shows.nothing_said
shown_calls (b ∷ rest) = Shows.calls_only (λ e. cc e)

shown :
    (t : String) (tools : List ToolCall)
    → Shows t (tool_blocks tools) (response_content (some t) tools)
unfolding response_content text_block
shown t tools = elim (Bool-cases (is_blank t)) [
  | inl blank ↦ rw blank (
      subst (λ u. Shows u (tool_blocks tools) (at_least_one (tool_blocks tools)))
        (sym ((eq_iff t "").0 blank)) (shown_calls (tool_blocks tools)))
  | inr filled ↦ rw filled (Shows.with_text (λ e. let no = rw e at filled in cc no))
]

content-Shows :
    (m : OpenAiMessage) (tools : List ToolCall)
    → Shows (told m.content m.refusal) (tool_blocks tools) (response_content (shown_text m) tools)
unfolding told response_content text_block
content-Shows m tools = elim (Option-cases m.content) [
  | inl none_given ↦ elim (Option-cases m.refusal) [
    | inl no_refusal ↦ rw (none_given, no_refusal) (shown_calls (tool_blocks tools))
    | inr (refusal, refused) ↦ rw (none_given, refused) (shown refusal tools)
  ]
  | inr (text, given) ↦ rw given (shown text tools)
]

spelt :
    (word known name : String)
    → (word =? known) ≡ true
    → Stops (some known) name
    → Stops (some word) name
spelt word known name e s = subst (λ w. Stops (some w) name) (sym ((eq_iff word known).0 e)) s

word-Stops :
    (word : String) (reason : StopReason)
    → map_reason word ≡ ok reason
    → Stops (some word) (as_str reason)
unfolding map_reason as_str
word-Stops word reason h =
    let P : StopReason → Type 0 = λ r. Stops (some word) (as_str r) in
    chosen P (word =? "stop") _ _ h (λ e. spelt word "stop" "end_turn" e Stops.stopped)
      (λ h1.
        chosen P (word =? "length") _ _ h1 (λ e. spelt word "length" "max_tokens" e Stops.at_limit)
          (λ h2.
            chosen P (word =? "tool_calls") _ _ h2
              (λ e. spelt word "tool_calls" "tool_use" e Stops.calling)
              (λ h3.
                chosen P (word =? "function_call") _ _ h3
                  (λ e. spelt word "function_call" "tool_use" e Stops.calling_function)
                  (λ h4.
                    chosen P (word =? "content_filter") _ _ h4
                      (λ e. spelt word "content_filter" "refusal" e Stops.filtered)
                      (λ h5. absurd (cc h5))))))

reason-Stops :
    (finish : Option String) (reason : StopReason)
    → map_stop_reason finish ≡ ok reason
    → Stops finish (as_str reason)
unfolding map_stop_reason as_str
reason-Stops none reason h =
    let same : StopReason.end_turn ≡ reason = cc h in rw (← same) Stops.unsaid
reason-Stops (some word) reason h = word-Stops word reason h

module _ (from_str : String → Option Value) where
  -- The content blocks, block by block: a tool call of the reply with its arguments parsed.
  pub data Parsed : List OpenAiToolCall → List OutputBlock → Type 0 where
    nil : Parsed [] []
    cons :
        {calls : List OpenAiToolCall} {blocks : List OutputBlock} (call : OpenAiToolCall)
        (input : Value)
        → from_str call.function.arguments ≡ some input
        → Parsed calls blocks
        → Parsed (call ∷ calls) (OutputBlock.tool_use call.id call.function.name input ∷ blocks)

  parse_calls-Parsed :
      (calls : List OpenAiToolCall) (tools : List ToolCall)
      → parse_calls from_str calls ≡ ok tools
      → Parsed calls (tool_blocks tools)
  unfolding parse_calls tool_blocks
  parse_calls-Parsed [] tools h = let e : [] ≡ tools = cc in rw (← e) Parsed.nil
  parse_calls-Parsed (call ∷ calls) tools h =
      let (input, e1, h1) = >>=-eq-ok (ok_or (from_str call.function.arguments) _) _ h in
      let (others, e2, h2) = >>=-eq-ok (parse_calls from_str calls) _ h1 in
      let t : ToolCall = record { id = call.id; name = call.function.name; input = input } in
      let e : t ∷ others ≡ tools = cc h2 in
      rw (← e) (Parsed.cons call input (ground arith) (parse_calls-Parsed calls others e2))

  -- How a message says what a reply says.
  abbrev pub Converted : OpenAiResponse → String → AnthropicResponse → Type 0
  Converted response model a =
      (choice : OpenAiChoice) × (rest : List OpenAiChoice) × (blocks : List OutputBlock)
      × (word : String) × (response.choices ≡ choice ∷ rest)
      × Parsed choice.message.tool_calls blocks
      × Shows (told choice.message.content choice.message.refusal) blocks a.content
      × Stops choice.finish_reason word
      × (a.stop_reason ≡ some word)
      × (a.model ≡ model)

  -- A reply that converts has a first choice, and becomes a message of the requested model: the text
  -- of the choice (or its refusal, if it has no text) unless that is empty, then one block for each
  -- tool call in order, with its id, its name and its arguments parsed; a single empty text if there
  -- is neither. The stop reason is `end_turn` for `stop` or no finish reason, `max_tokens` for
  -- `length`, `tool_use` for `tool_calls` and `function_call`, and `refusal` for `content_filter`.
  pub convert_response_lem :
      (response : OpenAiResponse) (model : String) (a : AnthropicResponse)
      → convert_response from_str response model ≡ ok a
      → Converted response model a
  unfolding convert_response response_content
  convert_response_lem response model a h =
      let (choice, e1, h1) = >>=-eq-ok (first_choice response.choices) _ h in
      let (tools, e2, h2) = >>=-eq-ok (parse_calls from_str choice.message.tool_calls) _ h1 in
      let (reason, e3, h3) = >>=-eq-ok (map_stop_reason choice.finish_reason) _ h2 in
      let (rest, first) = first_choice_lem response.choices choice e1 in
      let made : response_content (shown_text choice.message) tools ≡ a.content = ground arith in
      (
        choice,
        rest,
        tool_blocks tools,
        as_str reason,
        first,
        parse_calls-Parsed choice.message.tool_calls tools e2,
        rw (← made) (content-Shows choice.message tools),
        reason-Stops choice.finish_reason reason e3,
        ground arith,
        ground arith,
      )
