-- ===== src/Dashboard/Routes/Examples.antt =====
-- A route that is created, changed and deleted.
use calude_proxy.Base.{◌≡◌, String, none, List, [], ◌∷◌, All}
use calude_proxy.Config.{RouteConfig}
use calude_proxy.Dashboard.{DbError}
use calude_proxy.Dashboard.Text.RoundTrip.Examples.{names, names-IsEntry}
use calude_proxy.Dashboard.Setup.{migrated}
use calude_proxy.Dashboard.Routes.Requests.{
  RouteRequest, created, updated, deleted, IsClean, succeeds,
}
use calude_proxy.Dashboard.Routes.Kept.{
  models_at, answer, after_requests, mapped_all, after_requests_lem,
}

abbrev any_text : DbError → String
any_text e = "database is locked"

abbrev main_route : RouteConfig
main_route = record { id = "main"; models = names; targets = [] }

abbrev empty_route : RouteConfig
empty_route = record { id = "main"; models = []; targets = [] }

abbrev history : List RouteRequest
history = updated none "main" empty_route ∷ created none main_route ∷ []

abbrev next : RouteRequest
next = deleted none "main"

history-IsClean : All IsClean history
history-IsClean = (tt, (names-IsEntry, tt))

after_requests_lem_example :
    ((id : String)
      → models_at any_text (after_requests any_text history migrated) id
        ≡ mapped_all any_text history (models_at any_text migrated) id)
    × ((answer any_text next (after_requests any_text history migrated)).1.success
        ≡ succeeds next (mapped_all any_text history (models_at any_text migrated)))
after_requests_lem_example = after_requests_lem any_text history next migrated history-IsClean tt
