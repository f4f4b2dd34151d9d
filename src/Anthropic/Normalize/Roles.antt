-- ===== src/Anthropic/Normalize/Roles.antt =====
-- The roles of the messages that leave `normalize`.
use text.Mathlib.TextEquality.{eq_iff}
use calude_proxy.Base.{
  sym, ℕ, ◌+◌, ◌≡◌, refl, ap, subst, ◌⊎◌, inl, inr, String, Bool, Option, none, some, List, [], ◌∷◌,
  ◌++◌, map, ◌=?◌,
}
use calude_proxy.Error.{chosen, ok, >>=-eq-ok}
use calude_proxy.Json.{Value}
use calude_proxy.Domain.{InputMessage, InputBlock, MessageRole, NormalizedMessage}
use calude_proxy.Anthropic.Fields.{each}
use calude_proxy.Anthropic.Blocks.{parse_content, parse_system}
use calude_proxy.Anthropic.Normalize.{parse_role, parse_message, parse_prompt, system_message}

-- A role as a request spells it.
pub role_name : MessageRole → String
role_name MessageRole.user = "user"
role_name MessageRole.assistant = "assistant"
role_name MessageRole.system = "system"

-- The roles of the messages are those of the request, after one system message or none.
abbrev pub KeepsRoles : List InputMessage → List NormalizedMessage → Type 0
KeepsRoles sent ms =
    (map (λ m. role_name m.role) ms ≡ map (λ m. m.role) sent)
    ⊎ (map (λ m. role_name m.role) ms ≡ "system" ∷ map (λ m. m.role) sent)

parse_role-role_name :
    (role : String) (index : ℕ) (r : MessageRole)
    → parse_role role index ≡ ok r
    → role_name r ≡ role
unfolding role_name
parse_role-role_name role index r h =
    let P : MessageRole → Type 0 = λ m. role_name m ≡ role in
    chosen P (role =? "user") _ _ h (λ e. sym ((eq_iff role "user").0 e))
      (λ h1.
        chosen P (role =? "assistant") _ _ h1 (λ e. sym ((eq_iff role "assistant").0 e))
          (λ h2.
            chosen P (role =? "system") _ _ h2 (λ e. sym ((eq_iff role "system").0 e))
              (λ h3. absurd (cc h3))))

with_prompt :
    (sent : List InputMessage) (parsed : List NormalizedMessage) (blocks : List InputBlock)
    → map (λ m. role_name m.role) parsed ≡ map (λ m. m.role) sent
    → KeepsRoles sent (system_message blocks ++ parsed)
unfolding role_name
with_prompt sent parsed [] e = inl e
with_prompt sent parsed (block ∷ rest) e = inr (ap (λ names. "system" ∷ names) e)

module _ (base64_valid : String → Bool) (url_scheme : String → Option String) where
  messages-roles :
      (strict : Bool) (index : ℕ) (sent : List InputMessage) {ms : List NormalizedMessage}
      → each (parse_message base64_valid url_scheme strict) index sent ≡ ok ms
      → map (λ m. role_name m.role) ms ≡ map (λ m. m.role) sent
  unfolding each parse_message
  messages-roles strict index [] {ms} h =
      let none_left : [] ≡ ms = cc h in
      subst (λ zs. map (λ m. role_name m.role) zs ≡ []) none_left refl
  messages-roles strict index (message ∷ rest) {ms} h =
      let (m, e1, h1) =
        >>=-eq-ok (parse_message base64_valid url_scheme strict index message) _ h in
      let (others, e2, h2) =
        >>=-eq-ok (each (parse_message base64_valid url_scheme strict) (index + 1) rest) _ h1 in
      let (role, e3, h3) = >>=-eq-ok (parse_role message.role index) _ e1 in
      let (blocks, e4, h4) =
        >>=-eq-ok (parse_content base64_valid url_scheme message.content index strict) _ h3 in
      let this : record { role = role; blocks = blocks } ≡ m = cc h4 in
      let all_of : m ∷ others ≡ ms = cc h2 in
      rw (
        ← all_of,
        ← this,
        parse_role-role_name message.role index role e3,
        messages-roles strict (index + 1) rest e2,
      )

  pub normalized-roles :
      (system : Option Value) (strict : Bool) (sent : List InputMessage)
      (prompt parsed : List NormalizedMessage)
      → parse_prompt system strict ≡ ok prompt
      → each (parse_message base64_valid url_scheme strict) 0 sent ≡ ok parsed
      → KeepsRoles sent (prompt ++ parsed)
  unfolding role_name
  normalized-roles none strict sent prompt parsed h k =
      let none_left : [] ≡ prompt = cc h in
      subst (λ ms. KeepsRoles sent (ms ++ parsed)) none_left (inl (messages-roles strict 0 sent k))
  normalized-roles (some system) strict sent prompt parsed h k =
      let (blocks, e, h1) = >>=-eq-ok (parse_system system strict) _ h in
      let same : system_message blocks ≡ prompt = cc h1 in
      subst (λ ms. KeepsRoles sent (ms ++ parsed)) same
        (with_prompt sent parsed blocks (messages-roles strict 0 sent k))
