-- ===== src/Anthropic/Normalize/Bounds.antt =====
-- What a normalized request is known to satisfy.
use calude_proxy.Base.{
  ℕ, ◌+◌, ◌≤◌, ◌<◌, ◌≡◌, refl, ap, subst, suc, ltb, ◌==◌, length, All, String, Bool, true, false,
  not, List, [], ◌∷◌, is_empty, is_blank, trims_to_nothing, byte_len, one_of, arith, turned, sym,
  ◌||◌, ◌&&◌,
}
use calude_proxy.Error.{ProxyError, Result, ok, reject_if, ◌>>=◌, >>=-eq-ok}
use calude_proxy.Json.{is_object, unwrap_or}
use calude_proxy.Domain.{AnthropicRequest, ToolDefinition}
use calude_proxy.Anthropic.Fields.{each, refuse_extensions}
use calude_proxy.Anthropic.Normalize.{
  check_head, check_tool, check_tools, all_name_chars, in_unit_range_or_default, is_some,
}
use calude_proxy.Anthropic.Normalize.Limits.{
  FewStops, InUnitIfGiven, NameChars, not_less, stop_sequences-FewStops,
  in_unit_range-InUnitIfGiven, all_name_chars-NameChars,
}

-- A check that is passed was not asked to refuse.
pub passed {ℓ} :
    {A : Type ℓ} (b : Bool) (e : ProxyError) (f : Unit {0} → Result A) {a : A}
    → (reject_if b e >>= f) ≡ ok a
    → (b ≡ false) × (f tt ≡ ok a)
passed true e f h = cc
passed false e f h = (refl, h)

pub passed_last : (b : Bool) (e : ProxyError) {u : Unit {0}} → reject_if b e ≡ ok u → b ≡ false
passed_last true e h = cc
passed_last false e h = refl

not_zero : (n : ℕ) → (n == 0) ≡ false → 0 < n
not_zero n h = ground arith

pub not-not : (b : Bool) → not b ≡ false → b ≡ true
not-not true h = refl
not-not false h = cc

pub each-length {ℓ κ} :
    {A : Type ℓ} {B : Type κ} (p : ℕ → A → Result B) (index : ℕ) (xs : List A) {ys : List B}
    → each p index xs ≡ ok ys
    → length ys ≡ length xs
unfolding each
each-length p index [] {ys} h = let none_left : [] ≡ ys = cc h in rw (← none_left)
each-length p index (x ∷ xs) {ys} h =
    let (y, e1, h1) = >>=-eq-ok (p index x) _ h in
    let (rest, e2, h2) = >>=-eq-ok (each p (index + 1) xs) _ h1 in
    let all_of : (y ∷ rest) ≡ ys = cc h2 in
    subst (λ zs. length zs ≡ suc (length xs)) all_of (ap suc (each-length p (index + 1) xs e2))

-- The guards at the head, as propositions about the request.
pub record HeadIsValid (request : AnthropicRequest) : Type 0 where
  pub named : trims_to_nothing request.model ≡ false
  pub some_messages : is_empty request.messages ≡ false
  pub few_messages : length request.messages ≤ 10000
  pub few_tools : length request.tools ≤ 128
  pub stop_sequences_fit : FewStops (unwrap_or request.stop_sequences [])
  pub some_tokens : 0 < request.max_tokens
  pub temperature_fits : InUnitIfGiven request.temperature
  pub top_p_fits : InUnitIfGiven request.top_p

pub check_head-HeadIsValid :
    (request : AnthropicRequest) (strict : Bool) (u : Unit {0})
    → check_head request strict ≡ ok u
    → HeadIsValid request
unfolding check_head
check_head-HeadIsValid request strict u h =
    let (g1, h1) = passed _ _ _ h in
    let (g2, h2) = passed _ _ _ h1 in
    let (g3, h3) = passed _ _ _ h2 in
    let (g4, h4) = passed _ _ _ h3 in
    let (g5, h5) = passed _ _ _ h4 in
    let (g6, h6) = passed _ _ _ h5 in
    let (u7, e7, h7) = >>=-eq-ok (refuse_extensions request.extensions _ strict) _ h6 in
    let (g8, h8) = passed (is_some request.top_k) _ _ h7 in
    let (g9, h9) = passed (not (in_unit_range_or_default request.temperature)) _ _ h8 in
    record {
      named = g1;
      some_messages = g2;
      few_messages = not_less 10000 _ g3;
      few_tools = not_less 128 _ g4;
      stop_sequences_fit = stop_sequences-FewStops request.stop_sequences g5;
      some_tokens = not_zero _ g6;
      temperature_fits = in_unit_range-InUnitIfGiven request.temperature (not-not _ g9);
      top_p_fits =
          in_unit_range-InUnitIfGiven request.top_p
            (not-not _ (passed_last (not (in_unit_range_or_default request.top_p)) _ h9));
    }

abbrev pub tool_names : List ToolDefinition → List String
tool_names [] = []
tool_names (tool ∷ rest) = tool.name ∷ tool_names rest

abbrev pub distinct : List String → Bool
distinct [] = true
distinct (name ∷ rest) = not (one_of name rest) && distinct rest

-- A name of 1 to 64 letters, digits, `_` and `-`, and a schema that is an object.
pub ToolIsValid : ToolDefinition → Type 0
ToolIsValid tool =
    (is_blank tool.name ≡ false)
    × (byte_len tool.name ≤ 64)
    × NameChars tool.name
    × (is_object tool.input_schema ≡ true)

check_tool-ToolIsValid :
    (strict : Bool) (names : List String) (tool : ToolDefinition) {more : List String}
    → check_tool strict names tool ≡ ok more
    → ToolIsValid tool × (one_of tool.name names ≡ false) × (tool.name ∷ names ≡ more)
unfolding check_tool ToolIsValid
check_tool-ToolIsValid strict names tool h =
    let (g1, h1) = passed _ _ _ h in
    let (u2, e2, h2) = >>=-eq-ok (refuse_extensions tool.extensions _ strict) _ h1 in
    let (g3, h3) = passed _ _ _ h2 in
    let (a, b, c, d) =
      four (is_blank tool.name) (ltb 64 (byte_len tool.name)) (all_name_chars tool.name)
        (one_of tool.name names) g1 in
    ((a, not_less 64 _ b, all_name_chars-NameChars tool.name c, not-not _ g3), d, cc h3)
  where
    four :
        (a b c d : Bool)
        → (a || b || not c || d) ≡ false
        → (a ≡ false) × (b ≡ false) × (c ≡ true) × (d ≡ false)
    four false false true false h = (refl, refl, refl, refl)
    four false false true true h = cc
    four false false false d h = cc
    four false true c d h = cc
    four true b c d h = cc

pub check_tools-ToolIsValid :
    (strict : Bool) (names : List String) (tools : List ToolDefinition) {every : List String}
    → check_tools strict names tools ≡ ok every
    → distinct names ≡ true
    → All ToolIsValid tools × (distinct every ≡ true) × (every ≡ turned (tool_names tools) names)
unfolding check_tools
check_tools-ToolIsValid strict names [] h d =
    let same : names ≡ _ = cc h in (tt, rw (← same) d, sym same)
check_tools-ToolIsValid strict names (tool ∷ rest) h d =
    let (more, e, h1) = >>=-eq-ok (check_tool strict names tool) _ h in
    let (valid, new_name, same) = check_tool-ToolIsValid strict names tool e in
    let (others, distinct_all, shape) =
      check_tools-ToolIsValid strict (tool.name ∷ names) rest (rw (← same) at h1)
        (rw (new_name, d)) in
    ((valid, others), distinct_all, shape)
