-- ===== src/Anthropic/Fields/Loosens.antt =====
-- The order between the strict and the loose validation of a request: what the strict one accepts,
-- the loose one accepts with the same result. The rules follow the shape of the parsers.
use calude_proxy.Base.{
  ℕ, ◌+◌, [], ◌∷◌, ◌≡◌, refl, String, Bool, true, false, Option, none, some, List, if◌then◌else◌,
}
use calude_proxy.Error.{ProxyError, Result, ok, err, ◌>>=◌}
use calude_proxy.Error.Invalid.{
  FailsInvalid, FailsInvalid-ok, FailsInvalid-err, FailsInvalid-ok_or, FailsInvalid-bind,
  fails_invalid,
}
use calude_proxy.Json.{Value}
use calude_proxy.Anthropic.Fields.{ensure_only, required_str, refuse_key, refuse_extensions, each}

-- `s` accepts whatever `r` accepts, with the same result.
pub record Loosens {ℓ} {A : Type ℓ} (r s : Result A) : Type ℓ where
  pub at : (a : A) → r ≡ ok a → s ≡ ok a

module _ {ℓ} {A : Type ℓ} where
  pub Loosens-refl : (r : Result A) → Loosens r r
  Loosens-refl r = record { at = λ a h. h }

  pub Loosens-err : (e : ProxyError) (s : Result A) → Loosens (err e) s
  Loosens-err e s = record { at = λ a h. cc }

  pub Loosens-if :
      (b : Bool) (r s r' s' : Result A)
      → Loosens r r'
      → Loosens s s'
      → Loosens (if b then r else s) (if b then r' else s')
  Loosens-if true r s r' s' h k = h
  Loosens-if false r s r' s' h k = k

pub Loosens-bind {ℓ κ} :
    {A : Type ℓ} {B : Type κ} (m m' : Result A) (f f' : A → Result B)
    → Loosens m m'
    → ((a : A) → Loosens (f a) (f' a))
    → Loosens (m >>= f) (m' >>= f')
Loosens-bind (err e) m' f f' h k = Loosens-err e (m' >>= f')
Loosens-bind {A} {B} (ok a) m' f f' h k = record {
  at = λ b e. let accepted = h.at a refl in rw accepted ((k a).at b e);
}

-- A check that only the strict mode makes.
pub Loosens-check : (r : Result (Unit {0})) → Loosens r (ok tt)
Loosens-check r = record { at = λ a h. refl }

pub Loosens-ensure_only :
    (value : Value) (allowed : List String) (path : String)
    → Loosens (ensure_only value allowed path true) (ensure_only value allowed path false)
unfolding ensure_only
Loosens-ensure_only value allowed path = Loosens-check _

pub Loosens-each {ℓ κ} :
    {A : Type ℓ} {B : Type κ} (p q : ℕ → A → Result B)
    → ((index : ℕ) (a : A) → Loosens (p index a) (q index a))
    → (index : ℕ) (xs : List A) → Loosens (each p index xs) (each q index xs)
unfolding each
Loosens-each p q h index [] = Loosens-refl (ok [])
Loosens-each p q h index (a ∷ rest) =
    let later = Loosens-each p q h (index + 1) rest in
    Loosens-bind (p index a) (q index a) (λ b. each p (index + 1) rest >>= λ bs. ok (b ∷ bs))
      (λ b. each q (index + 1) rest >>= λ bs. ok (b ∷ bs)) (h index a)
      (λ b.
        Loosens-bind (each p (index + 1) rest) (each q (index + 1) rest) _ _ later
          (λ bs. Loosens-refl (ok (b ∷ bs))))

pub Loosens-refuse_extensions :
    (extensions : List (String × Value)) (message : String)
    → Loosens
        (refuse_extensions extensions message true)
        (refuse_extensions extensions message false)
unfolding refuse_extensions
Loosens-refuse_extensions extensions message = Loosens-check _

pub ruleset loosens = (
  Loosens-refuse_extensions, Loosens-ensure_only, Loosens-each, Loosens-bind, Loosens-if,
  Loosens-check, Loosens-refl,
)

pub FailsInvalid-refuse_key :
    (key : Option String) (message : String → String) → FailsInvalid (refuse_key key message)
FailsInvalid-refuse_key none message = FailsInvalid-ok tt
FailsInvalid-refuse_key (some key) message = FailsInvalid-err (message key)

pub FailsInvalid-required_str :
    (value : Value) (key path : String) → FailsInvalid (required_str value key path)
unfolding required_str
FailsInvalid-required_str value key path = FailsInvalid-ok_or _ _

pub FailsInvalid-ensure_only :
    (value : Value) (allowed : List String) (path : String) (strict : Bool)
    → FailsInvalid (ensure_only value allowed path strict)
unfolding ensure_only
FailsInvalid-ensure_only value allowed path false = FailsInvalid-ok tt
FailsInvalid-ensure_only value allowed path true =
    search (fails_invalid, FailsInvalid-refuse_key) depth 20

pub FailsInvalid-each {ℓ κ} :
    {A : Type ℓ} {B : Type κ} (p : ℕ → A → Result B)
    → ((index : ℕ) (a : A) → FailsInvalid (p index a))
    → (index : ℕ) (xs : List A) → FailsInvalid (each p index xs)
unfolding each
FailsInvalid-each p h index [] = FailsInvalid-ok []
FailsInvalid-each p h index (a ∷ rest) =
    let later = FailsInvalid-each p h (index + 1) rest in
    FailsInvalid-bind (p index a) (λ b. each p (index + 1) rest >>= λ bs. ok (b ∷ bs)) (h index a)
      (λ b.
        FailsInvalid-bind (each p (index + 1) rest) (λ bs. ok (b ∷ bs)) later
          (λ bs. FailsInvalid-ok (b ∷ bs)))

pub FailsInvalid-refuse_extensions :
    (extensions : List (String × Value)) (message : String) (strict : Bool)
    → FailsInvalid (refuse_extensions extensions message strict)
unfolding refuse_extensions
FailsInvalid-refuse_extensions extensions message strict = search (fails_invalid)

pub ruleset parser_fails = (
  FailsInvalid-refuse_extensions, FailsInvalid-each, fails_invalid, FailsInvalid-refuse_key,
  FailsInvalid-required_str, FailsInvalid-ensure_only,
)
