-- ===== src/Anthropic/Fields.antt =====
-- src/anthropic.rs: the checks of JSON fields that every parser of a request uses.
pub mod Loosens
use calude_proxy.Base.{
  ◌=?◌, ◌&&◌, all, ℕ, ◌+◌, String, Bool, true, false, Option, none, some, List, [], ◌∷◌, not, find?,
  one_of, if◌then◌else◌, ◌⧺◌,
}
use calude_proxy.Error.{Result, ok, err, invalid, ok_or, reject_if, ◌>>=◌}
use calude_proxy.Json.{Value, as_object, as_str, get, keys, and_then}

-- `find(|key| !allowed.contains(key))`, on the keys of an object.
unfoldable pub unknown_key : List String → List (String × Value) → Option String
unknown_key allowed kvs = find? (λ key. not (one_of key allowed)) (keys kvs)

-- What is refused when there is an unknown key, by its name.
abbrev pub refuse_key : Option String → (String → String) → Result (Unit {0})
refuse_key none message = ok tt
refuse_key (some key) message = err (invalid (message key))

unfoldable pub required_str : (value : Value) (key path : String) → Result String
required_str value key path =
    ok_or (and_then (get value key) as_str) (invalid (path ⧺ "." ⧺ key ⧺ " must be a string"))

abbrev pub object_of : Value → String → Result (List (String × Value))
object_of value path = ok_or (as_object value) (invalid (path ⧺ " must be an object"))

unfoldable pub ensure_only :
    (value : Value) (allowed : List String) (path : String) (strict : Bool) → Result (Unit {0})
ensure_only value allowed path false = ok tt
ensure_only value allowed path true = do
  object ← object_of value path
  refuse_key (unknown_key allowed object) (λ key. path ⧺ "." ⧺ key ⧺ " is unsupported")

unfoldable pub is_hint : String → Bool
is_hint key = key =? "cache_control"

-- The fields that the request's type does not name: only the strict mode refuses them, and not
-- `cache_control`.
unfoldable pub refuse_extensions :
    (extensions : List (String × Value)) (message : String) (strict : Bool) → Result (Unit {0})
unfolding is_hint
refuse_extensions extensions message strict =
    reject_if (strict && not (all is_hint (keys extensions))) (invalid message)

-- A loop over the elements with their indices that parses each and stops at the first error:
-- `iter().enumerate().map(parse).collect()`, from an index on.
unfoldable pub each {ℓ κ} :
    {A : Type ℓ} {B : Type κ} → (ℕ → A → Result B) → ℕ → List A → Result (List B)
each parse index [] = ok []
each parse index (a ∷ rest) = do
  parsed ← parse index a
  others ← each parse (index + 1) rest
  ok (parsed ∷ others)
