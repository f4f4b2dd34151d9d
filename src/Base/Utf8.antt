-- ===== src/Base/Utf8.antt =====
-- `str::from_utf8` of the standard library: it takes no overlong form, no surrogate, and nothing past
-- U+10FFFF.
use Prim.Native.Nat.{ℕ, ◌+◌, ◌-◌, ◌*◌, compare, Ordering}
use Prim.Native.Char.{Char, char, IsScalar}
use Prim.Native.String.{String}
use mathlib.Core.Path.{◌≡◌, refl}
use mathlib.Core.Logic.{◌⊎◌, inl, inr}
use mathlib.Core.Bool.{◌&&◌}
use mathlib.Core.Option.{Option, none, some}
use mathlib.Core.List.{List, [], ◌∷◌}
use calude_proxy.Base.Tests.{ltb, leb, if◌then◌else◌}

pub low-IsScalar : (n : ℕ) → compare n 55296 ≡ Ordering.lt → IsScalar n
low-IsScalar n h = rw h tt

pub high-IsScalar :
    (n : ℕ)
    → compare n 55296 ≡ Ordering.gt
    → compare 57343 n ≡ Ordering.lt
    → compare n 1114112 ≡ Ordering.lt
    → IsScalar n
high-IsScalar n h k l = rw (h, k, l) tt

Ordering-cases : (o : Ordering) → (o ≡ Ordering.lt) ⊎ (o ≡ Ordering.eq) ⊎ (o ≡ Ordering.gt)
Ordering-cases Ordering.lt = inl refl
Ordering-cases Ordering.eq = inr (inl refl)
Ordering-cases Ordering.gt = inr (inr refl)

-- The character of a number, if it is a scalar value.
from_u32 : ℕ → Option Char
from_u32 n = elim (Ordering-cases (compare n 55296)) [
  | inl low ↦ some (char n (low-IsScalar n low))
  | inr (inl first) ↦ none
  | inr (inr past) ↦ elim (Ordering-cases (compare 57343 n)) [
    | inl over ↦ elim (Ordering-cases (compare n 1114112)) [
      | inl under ↦ some (char n (high-IsScalar n past over under))
      | inr (inl last) ↦ none
      | inr (inr beyond) ↦ none
    ]
    | inr (inl last) ↦ none
    | inr (inr surrogate) ↦ none
  ]
]

-- Within a character: the bytes to come, its bits so far, and the least number that needs its length.
pub data Pending : Type 0 where
  idle : Pending
  within : (left bits least : ℕ) → Pending

-- What a byte leads to: an error, more bytes, or the end of a character.
pub data Decoded : Type 0 where
  wrong : Decoded
  more : Pending → Decoded
  done : Char → Decoded

ended : Option Char → Decoded
ended none = wrong
ended (some c) = done c

decode_byte : Pending → ℕ → Decoded
unfolding ended from_u32 Ordering-cases
decode_byte idle b =
    if ltb b 128
    then ended (from_u32 b)
    else if leb 194 b && ltb b 224
    then more (within 1 (b - 192) 128)
    else if leb 224 b && ltb b 240
    then more (within 2 (b - 224) 2048)
    else if leb 240 b && ltb b 245
    then more (within 3 (b - 240) 65536)
    else wrong
decode_byte (within left bits least) b =
    let value = bits * 64 + (b - 128) in
    if leb 128 b && ltb b 192
    then if ltb 1 left
      then more (within (left - 1) value least)
      else if leb least value
      then ended (from_u32 value)
      else wrong
    else wrong

prepend : Char → Option String → Option String
prepend c none = none
prepend c (some s) = some (String.◌∷◌ c s)

decode : Pending → List ℕ → Option String
unfolding decode_byte prepend
decode idle [] = some ""
decode (within left bits least) [] = none
decode pending (b ∷ rest) = elim (decode_byte pending b) [
  | wrong ↦ none
  | more later ↦ decode later rest
  | done c ↦ prepend c (decode idle rest)
]

unfoldable pub from_utf8 : List ℕ → Option String
unfolding decode
from_utf8 bytes = decode idle bytes
