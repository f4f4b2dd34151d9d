-- ===== src/Dashboard/Routes/Requests.antt =====
-- The requests that change routes, and the map that they are to keep.
use calude_proxy.Base.{
  ◌≡◌, refl, ap, String, Bool, false, not, Option, none, some, List, All, join, ◌=?◌, if◌then◌else◌,
}
use calude_proxy.Config.{RouteConfig}
use calude_proxy.Dashboard.Tables.{RouteRow}
use calude_proxy.Dashboard.Tables.Keyed.{changed, is_present}
use calude_proxy.Dashboard.Text.{split_comma_separated}
use calude_proxy.Dashboard.Text.RoundTrip.{IsEntry, split_comma_separated-join}
use calude_proxy.Dashboard.Routes.{DbRoute, row_to_route, shown_route}

-- The requests that change routes, each with the fault of its statement.
pub data RouteRequest : Type 0 where
  created : (fault : Option String) → RouteConfig → RouteRequest
  updated : (fault : Option String) (id : String) → RouteConfig → RouteRequest
  deleted : (fault : Option String) (id : String) → RouteRequest

-- The names of models in a request are not empty and have no commas and no space around them.
abbrev pub IsClean : RouteRequest → Type 0
IsClean (created fault route) = All IsEntry route.models
IsClean (updated fault id route) = All IsEntry route.models
IsClean (deleted fault id) = Unit {0}

-- The specification: the map after a request, and whether the request succeeds.
abbrev pub Models : Type 0
Models = String → Option (List String)

abbrev pub added : RouteConfig → Option (List String) → Models → Models
added route none m k = if route.id =? k then some route.models else m k
added route (some old) m k = m k

abbrev pub mapped : RouteRequest → Models → Models
mapped (created none route) m k = added route (m route.id) m k
mapped (updated none id route) m k = if id =? k then changed (λ old. route.models) (m k) else m k
mapped (deleted none id) m k = if id =? k then none else m k
mapped (created (some message) route) m k = m k
mapped (updated (some message) id route) m k = m k
mapped (deleted (some message) id) m k = m k

abbrev pub succeeds : RouteRequest → Models → Bool
succeeds (created none route) m = not (is_present (m route.id))
succeeds (updated none id route) m = is_present (m id)
succeeds (deleted none id) m = is_present (m id)
succeeds (created (some message) route) m = false
succeeds (updated (some message) id route) m = false
succeeds (deleted (some message) id) m = false

abbrev pub models_of : Option DbRoute → Option (List String)
models_of none = none
models_of (some route) = some route.models

unfoldable pub read_models : Option RouteRow → Option (List String)
read_models none = none
read_models (some row) = some (split_comma_separated row.models)

pub models_of-shown : (found : Option RouteRow) → models_of (shown_route found) ≡ read_models found
unfolding row_to_route read_models
models_of-shown none = refl
models_of-shown (some row) = refl

pub is_present-read_models :
    (found : Option RouteRow) → is_present (read_models found) ≡ is_present found
unfolding read_models
is_present-read_models none = refl
is_present-read_models (some row) = refl

pub read_models-changed :
    (models : List String) (found : Option RouteRow)
    → All IsEntry models
    → read_models (changed (λ row. record row { models = join "," models }) found)
      ≡ changed (λ old. models) (read_models found)
unfolding read_models
read_models-changed models none clean = refl
read_models-changed models (some row) clean = ap some (split_comma_separated-join models clean)
