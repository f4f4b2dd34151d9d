-- ===== src/Dashboard/Text/RoundTrip.antt =====
-- Lists that survive the way into a column and back.
pub mod Examples
use Prim.Native.Char.{code}
use Prim.Native.String
use Prim.Native.String.append
use calude_proxy.Base.{
  ◌≡◌, refl, ap, ◌∙◌, String, Bool, true, false, not, ◌&&◌, List, [], ◌∷◌, All, is_blank, trim,
  trim_start, trim_end, join, ◌==◌, ◌⧺◌, if◌then◌else◌, arith, Bool-cases, inl, inr,
}
use calude_proxy.Dashboard.Text.{before_first, split_commas, trimmed, split_comma_separated}

pub no_comma : String → Bool
no_comma String.[] = true
no_comma (String.◌∷◌ c s) = not (code c == b',') && no_comma s

-- A name that is its own entry: not empty, without commas and without space around it.
pub record IsEntry (s : String) : Type 0 where
  pub unsplit : no_comma s ≡ true
  pub some_text : is_blank s ≡ false
  pub tight : trim s ≡ s

after_comma : (t : String) → split_commas ("," ⧺ t) ≡ "" ∷ split_commas t
unfolding split_commas
after_comma t = ap split_commas (append.cons "," "" t ∙ ap (String.◌∷◌ ",") (append.nil t))

split_commas-append :
    (s t : String) → no_comma s ≡ true → split_commas (s ⧺ "," ⧺ t) ≡ s ∷ split_commas t
unfolding no_comma split_commas
split_commas-append String.[] t h = rw append.nil (after_comma t)
split_commas-append (String.◌∷◌ c s) t h =
    rw (append.cons c s ("," ⧺ t)) (ground (arith, split_commas-append s t))

split_commas_one : (s : String) → no_comma s ≡ true → split_commas s ≡ s ∷ []
unfolding no_comma split_commas
split_commas_one String.[] h = refl
split_commas_one (String.◌∷◌ c s) h = ground (arith, split_commas_one s)

trimmed-cons : (s : String) (rest : List String) → IsEntry s → trimmed (s ∷ rest) ≡ s ∷ trimmed rest
unfolding trimmed
trimmed-cons s rest e = rw (e.tight, e.some_text) refl

-- A list of names that are not empty and have no commas and no space around them, written into a
-- column by `join(",")`, is read back as it was.
pub split_comma_separated-join :
    (names : List String) → All IsEntry names → split_comma_separated (join "," names) ≡ names
unfolding split_comma_separated join trim_start trim_end
split_comma_separated-join [] h = refl
split_comma_separated-join (s ∷ []) h =
    rw (split_commas_one s h.0.unsplit, trimmed-cons s [] h.0) refl
split_comma_separated-join (s ∷ t ∷ rest) h =
    rw (split_commas-append s (join "," (t ∷ rest)) h.0.unsplit, trimmed-cons s _ h.0)
      (ap (◌∷◌ s) (split_comma_separated-join (t ∷ rest) h.1))
