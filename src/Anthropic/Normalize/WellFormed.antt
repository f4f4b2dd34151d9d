-- ===== src/Anthropic/Normalize/WellFormed.antt =====
-- The requests that leave `normalize`.
use calude_proxy.Base.{
  ℕ, ◌+◌, ◌≤◌, ◌<◌, ◌≡◌, refl, subst, ◌&&◌, ◌++◌, length, length-append, All, All-append, turned,
  String, Bool, true, false, not, Option, none, some, List, [], ◌∷◌, is_empty, trims_to_nothing,
  one_of, arith,
}
use calude_proxy.Error.{ok, >>=-eq-ok}
use calude_proxy.Json.{Value}
use calude_proxy.Domain.{
  AnthropicRequest, InputMessage, InputBlock, NormalizedMessage, NormalizedRequest, ToolChoice,
}
use calude_proxy.Anthropic.Fields.{each}
use calude_proxy.Anthropic.Blocks.{parse_content, parse_system}
use calude_proxy.Anthropic.Blocks.Filled.{parse_content-filled}
use calude_proxy.Anthropic.History.{validate_tool_history}
use calude_proxy.Anthropic.Normalize.{
  check_head, check_tools, parse_role, parse_tool_choice, check_choice, parse_message, parse_prompt,
  system_message, normalize,
}
use calude_proxy.Anthropic.Normalize.Limits.{FewStops, InUnitIfGiven}
use calude_proxy.Anthropic.Normalize.Roles.{KeepsRoles, normalized-roles}
use calude_proxy.Anthropic.Normalize.Bounds.{
  check_head-HeadIsValid, check_tools-ToolIsValid, each-length, tool_names, distinct, ToolIsValid,
}

-- A message that has a block.
pub Filled : NormalizedMessage → Type 0
Filled message = is_empty message.blocks ≡ false

-- A choice of a tool is one of the names; a demand for any tool wants a tool.
pub choice_fits : List String → Bool → Option ToolChoice → Bool
choice_fits names no_tools (some (ToolChoice.tool name disable_parallel)) =
    one_of name names && not no_tools
choice_fits names no_tools (some (ToolChoice.any disable_parallel)) = not no_tools
choice_fits names no_tools _ = true

check_choice-fits :
    (names : List String) (no_tools : Bool) (choice : Option ToolChoice) {u : Unit {0}}
    → check_choice names no_tools choice ≡ ok u
    → choice_fits names no_tools choice ≡ true
unfolding check_choice choice_fits
check_choice-fits names no_tools choice h = ground arith

pub record IsWellFormed (request : AnthropicRequest) (n : NormalizedRequest) : Type 0 where
  pub named : trims_to_nothing n.original_model ≡ false
  pub some_tokens : 0 < n.max_tokens
  pub some_messages : is_empty n.messages ≡ false
  pub few_messages : length n.messages ≤ 10001
  pub roles_are_kept : KeepsRoles request.messages n.messages
  pub all_filled : All Filled n.messages
  pub history_is_valid : validate_tool_history n.messages ≡ ok tt
  pub stop_sequences_fit : FewStops n.stop_sequences
  pub temperature_fits : InUnitIfGiven n.temperature
  pub top_p_fits : InUnitIfGiven n.top_p
  pub few_tools : length n.tools ≤ 128
  pub tools_are_valid : All ToolIsValid n.tools
  pub names_differ : distinct (turned (tool_names n.tools) []) ≡ true
  pub choice_is_valid :
      choice_fits (turned (tool_names n.tools) []) (is_empty n.tools) n.tool_choice ≡ true

not-empty-append :
    (ms ns : List NormalizedMessage) → is_empty ns ≡ false → is_empty (ms ++ ns) ≡ false
not-empty-append [] ns h = h
not-empty-append (m ∷ ms) ns h = refl

not-empty-length :
    (ms : List InputMessage) (ns : List NormalizedMessage)
    → length ns ≡ length ms
    → is_empty ms ≡ false
    → is_empty ns ≡ false
not-empty-length [] ns h k = cc
not-empty-length (m ∷ ms) [] h k = ground arith
not-empty-length (m ∷ ms) (n ∷ ns) h k = refl

system_message-Filled :
    (blocks : List InputBlock)
    → All Filled (system_message blocks) × (length (system_message blocks) ≤ 1)
unfolding Filled
system_message-Filled [] = (tt, omega arith)
system_message-Filled (block ∷ rest) = ((refl, tt), omega arith)

parse_prompt-Filled :
    (system : Option Value) (strict : Bool) {prompt : List NormalizedMessage}
    → parse_prompt system strict ≡ ok prompt
    → All Filled prompt × (length prompt ≤ 1)
parse_prompt-Filled none strict {prompt} h =
    let none_left : [] ≡ prompt = cc h in
    subst (λ ms. All Filled ms × (length ms ≤ 1)) none_left (system_message-Filled [])
parse_prompt-Filled (some system) strict {prompt} h =
    let (blocks, e, h1) = >>=-eq-ok (parse_system system strict) _ h in
    let same : system_message blocks ≡ prompt = cc h1 in
    subst (λ ms. All Filled ms × (length ms ≤ 1)) same (system_message-Filled blocks)

few :
    (prompt parsed : List NormalizedMessage) (messages : List InputMessage)
    → length prompt ≤ 1
    → length parsed ≡ length messages
    → length messages ≤ 10000
    → length (prompt ++ parsed) ≤ 10001
few prompt parsed messages h k l = omega (arith, length-append prompt parsed)

ok-injective {ℓ} : {A : Type ℓ} {a b : A} → ok a ≡ ok b → a ≡ b
ok-injective h = cc

module _ (base64_valid : String → Bool) (url_scheme : String → Option String) where
  parse_message-Filled :
      (strict : Bool) (index : ℕ) (message : InputMessage) {m : NormalizedMessage}
      → parse_message base64_valid url_scheme strict index message ≡ ok m
      → Filled m
  unfolding parse_message Filled
  parse_message-Filled strict index message {m} h =
      let (role, e1, h1) = >>=-eq-ok (parse_role message.role index) _ h in
      let (blocks, e2, h2) =
        >>=-eq-ok (parse_content base64_valid url_scheme message.content index strict) _ h1 in
      let same : record { role = role; blocks = blocks } ≡ m = cc h2 in
      rw (← same) (parse_content-filled base64_valid url_scheme message.content index strict e2)

  messages-Filled :
      (strict : Bool) (index : ℕ) (messages : List InputMessage) {ms : List NormalizedMessage}
      → each (parse_message base64_valid url_scheme strict) index messages ≡ ok ms
      → All Filled ms
  unfolding each
  messages-Filled strict index [] {ms} h =
      let none_left : [] ≡ ms = cc h in subst (All Filled) none_left tt
  messages-Filled strict index (message ∷ rest) {ms} h =
      let (m, e1, h1) =
        >>=-eq-ok (parse_message base64_valid url_scheme strict index message) _ h in
      let (others, e2, h2) =
        >>=-eq-ok (each (parse_message base64_valid url_scheme strict) (index + 1) rest) _ h1 in
      let same : m ∷ others ≡ ms = cc h2 in
      subst (All Filled) same
        (parse_message-Filled strict index message e1, messages-Filled strict (index + 1) rest e2)

  -- What `normalize` accepts, in either mode, is well formed: a model name that is not blank;
  -- max_tokens above zero; from 1 to 10001 messages, all of them with blocks, in the roles of the
  -- request's messages after at most one system message, and a valid tool history; at most four
  -- stop sequences, none empty; temperature and top_p in [0, 1]; at most 128 tools with object
  -- schemas and distinct names of 1 to 64 letters, digits, `_` and `-`; and a tool choice that these
  -- tools allow.
  pub normalize-IsWellFormed :
      (request : AnthropicRequest) (loose_validation : Bool) (n : NormalizedRequest)
      → normalize base64_valid url_scheme request loose_validation ≡ ok n
      → IsWellFormed request n
  unfolding normalize
  normalize-IsWellFormed request loose_validation n h =
      let strict = not loose_validation in
      let (u1, e1, h1) = >>=-eq-ok (check_head request strict) _ h in
      let (prompt, e2, h2) = >>=-eq-ok (parse_prompt request.system strict) _ h1 in
      let (parsed, e3, h3) =
        >>=-eq-ok (each (parse_message base64_valid url_scheme strict) 0 request.messages) _ h2 in
      let (u4, e4, h4) = >>=-eq-ok (validate_tool_history (prompt ++ parsed)) _ h3 in
      let (names, e5, h5) = >>=-eq-ok (check_tools strict [] request.tools) _ h4 in
      let (choice, e6, h6) = >>=-eq-ok (parse_tool_choice request.tool_choice strict) _ h5 in
      let (u7, e7, h7) = >>=-eq-ok (check_choice names (is_empty request.tools) choice) _ h6 in
      let head = check_head-HeadIsValid request strict u1 e1 in
      let (valid, differ, names_are) = check_tools-ToolIsValid strict [] request.tools e5 refl in
      let (prompt_filled, prompt_short) = parse_prompt-Filled request.system strict e2 in
      let as_many = each-length _ 0 request.messages e3 in
      subst (IsWellFormed request) (ok-injective h7) (record {
        named = head.named;
        some_tokens = head.some_tokens;
        some_messages =
            not-empty-append prompt parsed
              (not-empty-length request.messages parsed as_many head.some_messages);
        few_messages = few prompt parsed request.messages prompt_short as_many head.few_messages;
        roles_are_kept =
            normalized-roles _ _ request.system strict request.messages prompt parsed e2 e3;
        all_filled =
            All-append Filled prompt parsed prompt_filled
              (messages-Filled strict 0 request.messages e3);
        history_is_valid = e4;
        stop_sequences_fit = head.stop_sequences_fit;
        temperature_fits = head.temperature_fits;
        top_p_fits = head.top_p_fits;
        few_tools = head.few_tools;
        tools_are_valid = valid;
        names_differ = subst (λ every. distinct every ≡ true) names_are differ;
        choice_is_valid =
            subst (λ every. choice_fits every (is_empty request.tools) choice ≡ true) names_are
              (check_choice-fits names (is_empty request.tools) choice e7);
      })
