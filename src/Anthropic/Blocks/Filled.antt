-- ===== src/Anthropic/Blocks/Filled.antt =====
-- The content of a message has at least one block.
use calude_proxy.Base.{
  ℕ, ◌+◌, ◌≡◌, refl, subst, String, Bool, false, Option, List, [], ◌∷◌, is_empty,
}
use calude_proxy.Error.{Result, ok, err, reject_if, ok_or, ◌>>=◌, >>=-eq-ok}
use calude_proxy.Json.{Value, null, bool, number, string, array, object, items}
use calude_proxy.Domain.{InputBlock}
use calude_proxy.Anthropic.Fields.{each}
use calude_proxy.Anthropic.Blocks.{parse_content}

each-filled {ℓ κ} :
    {A : Type ℓ} {B : Type κ} (p : ℕ → A → Result B) (index : ℕ) (xs : List A) {ys : List B}
    → is_empty xs ≡ false
    → each p index xs ≡ ok ys
    → is_empty ys ≡ false
unfolding each
each-filled p index [] f h = cc
each-filled p index (x ∷ xs) f h =
    let (y, e1, h1) = >>=-eq-ok (p index x) _ h in
    let (rest, e2, h2) = >>=-eq-ok (each p (index + 1) xs) _ h1 in
    let all_of : (y ∷ rest) ≡ _ = cc h2 in subst (λ zs. is_empty zs ≡ false) all_of refl

then-filled {ℓ κ} :
    {A : Type ℓ} {B : Type κ} (p : ℕ → A → Result B) (message : String) (xs : List A) {ys : List B}
    → (reject_if (is_empty xs) (calude_proxy.Error.invalid message) >>= λ u. each p 0 xs) ≡ ok ys
    → is_empty ys ≡ false
then-filled p message [] h = cc
then-filled p message (x ∷ xs) h = each-filled p 0 (x ∷ xs) refl h

module _ (base64_valid : String → Bool) (url_scheme : String → Option String) where
  pub parse_content-filled :
      (value : Value) (index : ℕ) (strict : Bool) {blocks : List InputBlock}
      → parse_content base64_valid url_scheme value index strict ≡ ok blocks
      → is_empty blocks ≡ false
  unfolding parse_content
  parse_content-filled (string text) index strict {blocks} h =
      let one : (InputBlock.text text ∷ []) ≡ blocks = cc h in
      subst (λ zs. is_empty zs ≡ false) one refl
  parse_content-filled (array vs) index strict h = then-filled _ _ (items vs) h
  parse_content-filled null index strict h = cc
  parse_content-filled (bool b) index strict h = cc
  parse_content-filled (number n) index strict h = cc
  parse_content-filled (object fs) index strict h = cc
