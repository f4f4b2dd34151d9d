-- ===== src/Dashboard/Routes.antt =====
-- The routes of src/dashboard.rs: `list_routes`, `create_route`, `get_route`, `update_route` and
-- `delete_route`. The rows are read in the order of their entry; the deletion of a route deletes its
-- rows of `route_targets` too, by ON DELETE CASCADE.
pub mod Requests
pub mod Kept
pub mod Examples
use calude_proxy.Base.{
  ℕ, ◌+◌, String, Option, none, some, List, [], ◌∷◌, map, join, ◌==◌, ltb, if◌then◌else◌, ◌⧺◌,
}
use calude_proxy.Config.{RouteConfig}
use calude_proxy.Dashboard.{
  ApiResponse, DbError, Answer, done, failed, attempt, succeeded, refused, database_error,
  reply_to_query, reply_to_list, reply_to_change,
}
use calude_proxy.Dashboard.Tables.{
  Database, RouteRow, TargetRow, find_row, insert_row, update_rows, delete_rows,
}
use calude_proxy.Dashboard.Text.{split_comma_separated}

pub record DbRoute : Type 0 where
  pub id : String
  pub models : List String

abbrev pub route_key : RouteRow → String
route_key row = row.route_id

unfoldable pub row_to_route : RouteRow → DbRoute
row_to_route row = record { id = row.route_id; models = split_comma_separated row.models }

abbrev pub shown_route : Option RouteRow → Option DbRoute
shown_route none = none
shown_route (some row) = some (row_to_route row)

-- `INSERT INTO routes`, with the new `id`.
unfoldable pub insert_route : (route_id models : String) → Database → Answer Database
insert_route route_id models db =
    elim (insert_row route_key "routes.route_id"
      (record { id = db.last_route + 1; route_id = route_id; models = models }) db.routes) [
        | failed e ↦ failed e
        | done rows ↦ done (record db { routes = rows; last_route = db.last_route + 1 })
      ]

-- The targets that are left when the row of a route is deleted.
unfoldable pub drop_targets : ℕ → List TargetRow → List TargetRow
drop_targets id [] = []
drop_targets id (target ∷ rest) =
    let others = drop_targets id rest in if target.route_id == id then others else target ∷ others

abbrev pub cascade : Option RouteRow → List TargetRow → List TargetRow
cascade none targets = targets
cascade (some row) targets = drop_targets row.id targets

module _ (db_text : DbError → String) where
  unfoldable pub list_routes : (fault : Option String) → List RouteRow → ApiResponse (List DbRoute)
  list_routes fault rows = reply_to_list db_text (attempt fault (done (map row_to_route rows)))

  unfoldable pub create_route :
      (fault : Option String) → RouteConfig → Database → Database × ApiResponse String
  create_route fault route db =
      elim (attempt fault (insert_route route.id (join "," route.models) db)) [
        | done after ↦ (after, succeeded "Route created successfully")
        | failed e ↦ (db, database_error db_text e)
      ]

  unfoldable pub get_route : (fault : Option String) → String → List RouteRow → ApiResponse DbRoute
  get_route fault id rows =
      reply_to_query db_text "Route not found"
        (attempt fault (done (shown_route (find_row route_key id rows))))

  unfoldable pub update_route :
      (fault : Option String) (id : String)
      → RouteConfig
      → List RouteRow
      → List RouteRow × ApiResponse String
  update_route fault id route rows =
      reply_to_change db_text "Route updated successfully" "Route not found" rows (
        attempt fault (
          done
            (update_rows route_key (λ row. record row { models = join "," route.models }) id rows)))

  unfoldable pub delete_route :
      (fault : Option String) → String → Database → Database × ApiResponse String
  delete_route fault id db = elim (attempt fault (done (delete_rows route_key id db.routes))) [
    | failed e ↦ (db, database_error db_text e)
    | done (rows, affected) ↦ (
      record db { routes = rows; targets = cascade (find_row route_key id db.routes) db.targets },
      if ltb 0 affected then succeeded "Route deleted successfully" else refused "Route not found",
    )
  ]
