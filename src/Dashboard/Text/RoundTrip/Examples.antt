-- ===== src/Dashboard/Text/RoundTrip/Examples.antt =====
-- The models of a route in their column.
use calude_proxy.Base.{◌≡◌, refl, String, List, [], ◌∷◌, All, join, trim_end, trim_start}
use calude_proxy.Dashboard.Text.{split_comma_separated}
use calude_proxy.Dashboard.Text.RoundTrip.{no_comma, IsEntry, split_comma_separated-join}

abbrev pub names : List String
names = "opus-*" ∷ "haiku" ∷ []

opus-IsEntry : IsEntry "opus-*"
unfolding no_comma trim_end trim_start
opus-IsEntry = record { unsplit = refl; some_text = refl; tight = refl }

haiku-IsEntry : IsEntry "haiku"
unfolding no_comma trim_end trim_start
haiku-IsEntry = record { unsplit = refl; some_text = refl; tight = refl }

pub names-IsEntry : All IsEntry names
names-IsEntry = (opus-IsEntry, (haiku-IsEntry, tt))

split_comma_separated-join_example : split_comma_separated (join "," names) ≡ names
split_comma_separated-join_example = split_comma_separated-join names names-IsEntry
