-- ===== src/Json.antt =====
-- The JSON values that the requests and replies are made of, and the accessors that the source
-- calls on them.
use calude_proxy.Base.{
  ℕ, String, ◌≡◌, refl, ap, Bool, true, false, Option, none, some, List, [], ◌∷◌, ◌=?◌,
  if◌then◌else◌,
}

-- A finite `f64`, exactly: `units` times 2^-1074, with its sign. JSON has no other.
pub record F64 : Type 0 where
  pub negative : Bool
  pub units : ℕ

-- A number is kept as `u64`, as a negative `i64` (its absolute value here), or as `f64`.
pub data Number : Type 0 where
  pos_int : ℕ → Number
  neg_int : ℕ → Number
  float : F64 → Number

mutual
  pub data Value : Type 0 where
    null : Value
    bool : Bool → Value
    number : Number → Value
    string : String → Value
    array : Items → Value
    object : Fields → Value

  pub data Items : Type 0 where
    nil : Items
    cons : Value → Items → Items

  -- The entries of a map. One that was parsed lists them in its order of iteration; one that the
  -- model builds lists them as the source writes them.
  pub data Fields : Type 0 where
    end : Fields
    field : String → Value → Fields → Fields

abbrev pub items : Items → List Value
items nil = []
items (cons v rest) = v ∷ items rest

abbrev pub entries : Fields → List (String × Value)
entries end = []
entries (field k v rest) = (k, v) ∷ entries rest

abbrev pub from_items : List Value → Items
from_items [] = nil
from_items (v ∷ rest) = cons v (from_items rest)

abbrev pub from_entries : List (String × Value) → Fields
from_entries [] = end
from_entries ((k, v) ∷ rest) = field k v (from_entries rest)

-- Literals of the `json!` macro.
abbrev pub arr : List Value → Value
arr vs = array (from_items vs)

abbrev pub obj : List (String × Value) → Value
obj kvs = object (from_entries kvs)

abbrev pub json_number : ℕ → Value
json_number n = number (pos_int n)

-- The value under a key of a map.
abbrev pub lookup {ℓ} : {V : Type ℓ} → String → List (String × V) → Option V
lookup k [] = none
lookup k ((j, v) ∷ rest) = if j =? k then some v else lookup k rest

abbrev pub keys {ℓ} : {V : Type ℓ} → List (String × V) → List String
keys [] = []
keys ((k, v) ∷ rest) = k ∷ keys rest

-- `Value::as_object`, `as_array`, `as_str`, `as_bool`, `as_u64`.
abbrev pub as_object : Value → Option (List (String × Value))
as_object (object fs) = some (entries fs)
as_object _ = none

abbrev pub as_array : Value → Option (List Value)
as_array (array vs) = some (items vs)
as_array _ = none

abbrev pub as_str : Value → Option String
as_str (string s) = some s
as_str _ = none

abbrev pub as_bool : Value → Option Bool
as_bool (bool b) = some b
as_bool _ = none

abbrev pub as_u64 : Value → Option ℕ
as_u64 (number (pos_int n)) = some n
as_u64 _ = none

abbrev pub is_object : Value → Bool
is_object (object fs) = true
is_object _ = false

abbrev pub is_string : Value → Bool
is_string (string s) = true
is_string _ = false

abbrev pub is_null : Value → Bool
is_null null = true
is_null _ = false

-- `Value::get(key)`: `None` on what is no object.
abbrev pub get : Value → String → Option Value
get (object fs) k = lookup k (entries fs)
get _ k = none

-- `option.and_then(f)`.
abbrev pub and_then {ℓ κ} : {A : Type ℓ} {B : Type κ} → Option A → (A → Option B) → Option B
and_then none f = none
and_then (some a) f = f a

abbrev pub unwrap_or {ℓ} : {A : Type ℓ} → Option A → A → A
unwrap_or none d = d
unwrap_or (some a) d = a

-- `Value::pointer("/a/b")`, for keys that are no array index.
abbrev pub pointer : Value → String → String → Option Value
pointer v a b = and_then (get v a) (λ w. get w b)

pub items-from_items : (vs : List Value) → items (from_items vs) ≡ vs
items-from_items [] = refl
items-from_items (v ∷ rest) = ap (◌∷◌ v) (items-from_items rest)

pub entries-from_entries : (kvs : List (String × Value)) → entries (from_entries kvs) ≡ kvs
entries-from_entries [] = refl
entries-from_entries ((k, v) ∷ rest) = ap (◌∷◌ (k, v)) (entries-from_entries rest)
