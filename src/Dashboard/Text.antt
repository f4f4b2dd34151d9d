-- ===== src/Dashboard/Text.antt =====
-- `split_comma_separated` of src/dashboard.rs: the lists that a column holds as one text.
pub mod RoundTrip
use Prim.Native.Char.{Char, code}
use Prim.Native.String
use calude_proxy.Base.{String, Bool, List, [], ◌∷◌, is_blank, trim, ◌==◌, if◌then◌else◌}

-- A character before the first piece.
abbrev pub before_first : Char → List String → List String
before_first c [] = String.◌∷◌ c "" ∷ []
before_first c (piece ∷ rest) = String.◌∷◌ c piece ∷ rest

-- `split(',')`: one piece more than there are commas.
unfoldable pub split_commas : String → List String
split_commas String.[] = "" ∷ []
split_commas (String.◌∷◌ c s) =
    let rest = split_commas s in if code c == b',' then "" ∷ rest else before_first c rest

-- `map(str::trim)` and the filter.
unfoldable pub trimmed : List String → List String
trimmed [] = []
trimmed (piece ∷ rest) =
    let later = trimmed rest in if is_blank (trim piece) then later else trim piece ∷ later

unfoldable pub split_comma_separated : String → List String
unfolding split_commas trimmed
split_comma_separated value = trimmed (split_commas value)
