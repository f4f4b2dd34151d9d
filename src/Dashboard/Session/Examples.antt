-- ===== src/Dashboard/Session/Examples.antt =====
-- A login of a user who stands in the table.
use calude_proxy.Base.{◌≡◌, ◌↔◌, String, Bool, none, some, List, [], ◌∷◌, ◌=?◌}
use calude_proxy.Dashboard.{DbError}
use calude_proxy.Dashboard.Tables.{AuthUser}
use calude_proxy.Dashboard.Session.{
  LoginRequest, redirected, html, login_handler, logout_handler, dashboard_index,
}
use calude_proxy.Dashboard.Session.Access.{IsGranted, session_iff}

abbrev any_text : DbError → String
any_text e = "database is locked"

-- A hash that is the password itself.
abbrev same_word : (password_hash password : String) → Bool
same_word password_hash password = password_hash =? password

abbrev users : List AuthUser
users = record { id = 2; username = "ops"; password_hash = "open sesame" } ∷ []

abbrev login : LoginRequest
login = record { username = "ops"; password = "open sesame" }

session_iff_example :
    ((dashboard_index "<h1>" (login_handler any_text same_word "root" none login users none).1
        ≡ html "<h1>")
      ↔ IsGranted same_word "root" none login users)
    × (dashboard_index "<h1>" (logout_handler (some "authenticated")).1
        ≡ redirected "/dashboard/login")
session_iff_example =
    session_iff any_text same_word "<h1>" "root" none login users (some "authenticated")
