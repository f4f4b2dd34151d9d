-- ===== src/Anthropic/Normalize/Limits.antt =====
-- The limits of `normalize` on stop sequences, `temperature`, `top_p` and tool names, in words of
-- their own.
use Prim.Native.Char.{code}
use text.Mathlib.TextEquality.{eq_iff}
use calude_proxy.Base.{
  ℕ, ◌≤◌, ◌≡◌, ◌≢◌, ◌⊎◌, inl, inr, refl, ltb, leb, ◌==◌, length, any, All, String, Bool, true,
  false, not, ◌||◌, ◌&&◌, Option, none, some, List, [], ◌∷◌, is_blank, arith, ◌=?◌, ◌^◌,
}
use calude_proxy.Json.{F64, unwrap_or}
use calude_proxy.Anthropic.Normalize.{
  all_name_chars, is_name_char, in_unit_range, in_unit_range_or_default, bad_stop_sequences,
}

both : (a b : Bool) → (a && b) ≡ true → (a ≡ true) × (b ≡ true)
both true b h = (refl, h)
both false b h = cc

within : (a b : ℕ) → leb a b ≡ true → a ≤ b
within a b h = ground arith

-- A number from 0 to 1, as a multiple of 2 ^ -1074; zero may have a sign.
abbrev pub InUnit : F64 → Type 0
InUnit x = ((x.negative ≡ false) ⊎ (x.units ≡ 0)) × (x.units ≤ 2 ^ 1074)

abbrev pub InUnitIfGiven : Option F64 → Type 0
InUnitIfGiven none = Unit {0}
InUnitIfGiven (some x) = InUnit x

-- At most four texts, none of them empty.
abbrev pub FewStops : List String → Type 0
FewStops sequences = (length sequences ≤ 4) × All (λ s. s ≢ "") sequences

-- A digit, a letter, `_` or `-`.
abbrev pub NameChar : ℕ → Type 0
NameChar c =
    ((48 ≤ c) × (c ≤ 57)) ⊎ ((65 ≤ c) × (c ≤ 90)) ⊎ ((97 ≤ c) × (c ≤ 122)) ⊎ (c ≡ 95) ⊎ (c ≡ 45)

pub NameChars : String → Type 0
NameChars String.[] = Unit {0}
NameChars (String.◌∷◌ c s) = NameChar (code c) × NameChars s

in_unit :
    (negative : Bool) (units : ℕ)
    → ((not negative || units == 0) && leb units (2 ^ 1074)) ≡ true
    → ((negative ≡ false) ⊎ (units ≡ 0)) × (units ≤ 2 ^ 1074)
in_unit true units h = let (zero', small) = both _ _ h in (inr (ground arith), within _ _ small)
in_unit false units h = (inl refl, within _ _ h)

in_unit_range-InUnit : (x : F64) → in_unit_range x ≡ true → InUnit x
unfolding in_unit_range
in_unit_range-InUnit x h = in_unit x.negative x.units h

pub in_unit_range-InUnitIfGiven :
    (x : Option F64) → in_unit_range_or_default x ≡ true → InUnitIfGiven x
in_unit_range-InUnitIfGiven none h = tt
in_unit_range-InUnitIfGiven (some x) h = in_unit_range-InUnit x h

pub or_false : (a b : Bool) → (a || b) ≡ false → (a ≡ false) × (b ≡ false)
or_false true b h = cc
or_false false b h = (refl, h)

pub not_less : (a b : ℕ) → ltb a b ≡ false → b ≤ a
not_less a b h = ground arith

none_blank : (ts : List String) → any is_blank ts ≡ false → All (λ s. s ≢ "") ts
none_blank [] h = tt
none_blank (t ∷ ts) h =
    let (filled, others) = or_false (is_blank t) _ h in
    (λ blank. let same : (t =? "") ≡ true = (eq_iff t "").1 blank in cc, none_blank ts others)

pub stop_sequences-FewStops :
    (sequences : Option (List String))
    → bad_stop_sequences sequences ≡ false
    → FewStops (unwrap_or sequences [])
unfolding bad_stop_sequences
stop_sequences-FewStops none h = (omega arith, tt)
stop_sequences-FewStops (some sequences) h =
    let (few, filled) = or_false _ _ h in
    (not_less 4 (length sequences) few, none_blank sequences filled)

is_name_char-NameChar : (c : ℕ) → is_name_char c ≡ true → NameChar c
unfolding is_name_char
is_name_char-NameChar c h = ground arith

pub all_name_chars-NameChars : (s : String) → all_name_chars s ≡ true → NameChars s
unfolding all_name_chars NameChars
all_name_chars-NameChars String.[] h = tt
all_name_chars-NameChars (String.◌∷◌ c s) h =
    let (this, others) = both _ _ h in
    (is_name_char-NameChar (code c) this, all_name_chars-NameChars s others)
