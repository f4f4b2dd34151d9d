-- ===== src/Dashboard/Routes/Kept.antt =====
-- The routes of the interface as a map from ids to lists of models.
use mathlib.Core.Path.{fun_ext}
use calude_proxy.Base.{
  ◌≡◌, refl, ap, sym, ◌∙◌, String, none, some, List, [], ◌∷◌, ◌++◌, ◌+◌, All, join, ◌=?◌,
  if◌then◌else◌, Bool-cases, Option-cases, inl, inr,
}
use calude_proxy.Config.{RouteConfig}
use calude_proxy.Dashboard.{ApiResponse, DbError, succeeded, database_error}
use calude_proxy.Dashboard.Tables.{Database, RouteRow, find_row, insert_row}
use calude_proxy.Dashboard.Tables.Keyed.{
  is_present, find_row-append, find_row-update_rows, affected-update_rows, find_row-delete_rows,
  affected-delete_rows, content-reply_to_query, success-reply,
}
use calude_proxy.Dashboard.Text.RoundTrip.{IsEntry, split_comma_separated-join}
use calude_proxy.Dashboard.Routes.{
  route_key, shown_route, insert_route, create_route, get_route, update_route, delete_route,
}
use calude_proxy.Dashboard.Routes.Requests.{
  RouteRequest, created, updated, deleted, IsClean, Models, mapped, succeeds, models_of,
  read_models, models_of-shown, is_present-read_models, read_models-changed,
}

module _ (db_text : DbError → String) where
  -- What `get_route` shows of a route, `none` if it refuses.
  pub models_at : Database → Models
  models_at db id = models_of (get_route db_text none id db.routes).content

  models_at_lem :
      (db : Database) (id : String)
      → models_at db id ≡ read_models (find_row route_key id db.routes)
  unfolding models_at get_route
  models_at_lem db id =
      ap models_of
        (content-reply_to_query db_text _ (shown_route (find_row route_key id db.routes)))
      ∙ models_of-shown (find_row route_key id db.routes)

  pub answer : RouteRequest → Database → Database × ApiResponse String
  answer (created fault route) db = create_route db_text fault route db
  answer (updated fault id route) db =
      let (rows, reply) = update_route db_text fault id route db.routes in
      (record db { routes = rows }, reply)
  answer (deleted fault id) db = delete_route db_text fault id db

  -- The oldest request stands last.
  pub after_requests : List RouteRequest → Database → Database
  after_requests [] db = db
  after_requests (request ∷ earlier) db = (answer request (after_requests earlier db)).0

  pub mapped_all : List RouteRequest → Models → Models
  mapped_all [] m = m
  mapped_all (request ∷ earlier) m = mapped request (mapped_all earlier m)

  Meets : RouteRequest → Database → Type 0
  Meets request db =
      ((k : String) → models_at (answer request db).0 k ≡ mapped request (models_at db) k)
      × ((answer request db).1.success ≡ succeeds request (models_at db))

  with_route : RouteConfig → Database → Database
  with_route route db = record db {
    routes =
        db.routes
        ++ record { id = db.last_route + 1; route_id = route.id; models = join "," route.models }
          ∷ [];
    last_route = db.last_route + 1;
  }

  create_route_new :
      (route : RouteConfig) (db : Database)
      → find_row route_key route.id db.routes ≡ none
      → create_route db_text none route db
        ≡ (with_route route db, succeeded "Route created successfully")
  unfolding create_route insert_route insert_row with_route
  create_route_new route db missing = rw (missing, create_route) refl

  create_route_old :
      (route : RouteConfig) (db : Database) {row : RouteRow}
      → find_row route_key route.id db.routes ≡ some row
      → create_route db_text none route db
        ≡ (db, database_error db_text (DbError.unique_failed "routes.route_id"))
  unfolding create_route insert_route insert_row
  create_route_old route db found = rw (found, create_route) refl

  models_at-with_route :
      (route : RouteConfig) (db : Database) (k : String)
      → All IsEntry route.models
      → find_row route_key route.id db.routes ≡ none
      → models_at (with_route route db) k
        ≡ (if route.id =? k then some route.models else models_at db k)
  unfolding with_route read_models
  models_at-with_route route db k clean missing =
      models_at_lem (with_route route db) k
      ∙ ap read_models (find_row-append route_key k db.routes _ missing)
      ∙ elim (Bool-cases (route.id =? k)) [
        | inl hit ↦ rw hit (ap some (split_comma_separated-join route.models clean))
        | inr miss ↦ rw miss (sym (models_at_lem db k))
      ]

  created-Meets :
      (route : RouteConfig) (db : Database)
      → All IsEntry route.models
      → Meets (created none route) db
  unfolding Meets answer read_models
  created-Meets route db clean = elim (Option-cases (find_row route_key route.id db.routes)) [
    | inl missing ↦
        let absent = models_at_lem db route.id ∙ ap read_models missing in
        rw (create_route_new route db missing, absent)
          ((λ k. models_at-with_route route db k clean missing), refl)
    | inr (row, found) ↦
        let present = models_at_lem db route.id ∙ ap read_models found in
        rw (create_route_old route db found, present) ((λ k. refl), refl)
  ]

  updated-Meets :
      (id : String) (route : RouteConfig) (db : Database)
      → All IsEntry route.models
      → Meets (updated none id route) db
  unfolding Meets answer update_route
  updated-Meets id route db clean = (
    λ k.
        models_at_lem (answer (updated none id route) db).0 k
        ∙ ap read_models (
            find_row-update_rows route_key (λ row. record row { models = join "," route.models }) id
              k db.routes (λ row. refl))
        ∙ elim (Bool-cases (id =? k)) [
          | inl hit ↦
              rw (hit, models_at_lem db k)
                (read_models-changed route.models (find_row route_key k db.routes) clean)
          | inr miss ↦ rw miss (sym (models_at_lem db k))
        ],
    success-reply _ _ _
        ∙ affected-update_rows route_key _ id db.routes
        ∙ sym (is_present-read_models (find_row route_key id db.routes))
        ∙ ap is_present (sym (models_at_lem db id)),
  )

  deleted-Meets : (id : String) (db : Database) → Meets (deleted none id) db
  unfolding Meets answer delete_route read_models
  deleted-Meets id db = (
    λ k.
        models_at_lem (answer (deleted none id) db).0 k
        ∙ ap read_models (find_row-delete_rows route_key id k db.routes)
        ∙ elim (Bool-cases (id =? k)) [
          | inl hit ↦ rw (hit, read_models) refl
          | inr miss ↦ rw miss (sym (models_at_lem db k))
        ],
    success-reply _ _ _
        ∙ affected-delete_rows route_key id db.routes
        ∙ sym (is_present-read_models (find_row route_key id db.routes))
        ∙ ap is_present (sym (models_at_lem db id)),
  )

  answer-Meets : (request : RouteRequest) (db : Database) → IsClean request → Meets request db
  unfolding Meets answer create_route update_route delete_route
  answer-Meets (created none route) db clean = created-Meets route db clean
  answer-Meets (updated none id route) db clean = updated-Meets id route db clean
  answer-Meets (deleted none id) db clean = deleted-Meets id db
  answer-Meets (created (some message) route) db clean = ((λ k. refl), refl)
  answer-Meets (updated (some message) id route) db clean = ((λ k. refl), refl)
  answer-Meets (deleted (some message) id) db clean = ((λ k. refl), refl)

  after_requests-models :
      (requests : List RouteRequest) (db : Database)
      → All IsClean requests
      → models_at (after_requests requests db) ≡ mapped_all requests (models_at db)
  unfolding after_requests mapped_all Meets
  after_requests-models [] db clean = refl
  after_requests-models (request ∷ earlier) db clean = fun_ext λ k.
      (answer-Meets request (after_requests earlier db) clean.0).0 k
      ∙ ap (λ m. mapped request m k) (after_requests-models earlier db clean.1)

  -- After any history of requests to create, update and delete routes, in which every name of a model
  -- is one that the column keeps apart, `get_route` shows of every id what a map shows to which the
  -- requests are applied: a creation adds an id that is not there, an update and a deletion need
  -- one that is, and a request whose statement fails changes nothing. The next request succeeds
  -- exactly as the map says.
  pub after_requests_lem :
      (requests : List RouteRequest) (next : RouteRequest) (db : Database)
      → All IsClean requests
      → IsClean next
      → ((id : String)
          → models_at (after_requests requests db) id ≡ mapped_all requests (models_at db) id)
        × ((answer next (after_requests requests db)).1.success
            ≡ succeeds next (mapped_all requests (models_at db)))
  unfolding Meets
  after_requests_lem requests next db clean fits =
      let same = after_requests-models requests db clean in
      (
        λ id. ap (λ m. m id) same,
        (answer-Meets next (after_requests requests db) fits).1 ∙ ap (succeeds next) same,
      )
