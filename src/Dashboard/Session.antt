-- ===== src/Dashboard/Session.antt =====
-- The sessions of src/dashboard.rs: `login_handler`, `logout_handler`, `auth_middleware` and
-- `dashboard_index`. Of the cookies only `auth_token` is read or set. `verify` stands for parsing a
-- password hash and verifying a password against it with Argon2; `index_html` is the template.
pub mod Examples
pub mod Access
use calude_proxy.Base.{
  String, Bool, true, false, not, ◌&&◌, ◌||◌, Option, none, some, List, is_blank, strip_prefix,
  ◌=?◌, if◌then◌else◌,
}
use calude_proxy.Dashboard.{
  ApiResponse, DbError, Answer, done, failed, attempt, refused, database_error,
}
use calude_proxy.Dashboard.Tables.{AuthUser, find_row}

pub record LoginRequest : Type 0 where
  pub username : String
  pub password : String

-- A reply, with the value of `auth_token` in the browser after it.
pub data Page : Type 0 where
  redirected : (location : String) → Page
  html : String → Page
  answered : ApiResponse String → Page

abbrev pub Cookie : Type 0
Cookie = Option String

abbrev pub user_key : AuthUser → String
user_key user = user.username

abbrev pub opened : Page × Cookie
opened = (redirected "/dashboard", some "authenticated")

module _ (db_text : DbError → String) (verify : (password_hash password : String) → Bool) where
  -- The reply to the query for the user on.
  unfoldable pub login_user :
      (password : String) → Answer (Option AuthUser) → Cookie → Page × Cookie
  login_user password (done (some user)) cookie =
      if verify user.password_hash password
      then opened
      else (answered (refused "Invalid credentials"), cookie)
  login_user password (done none) cookie = (answered (refused "Invalid credentials"), cookie)
  login_user password (failed e) cookie = (answered (database_error db_text e), cookie)

  unfoldable pub login_handler :
      (admin_secret : String) (fault : Option String)
      → LoginRequest
      → List AuthUser
      → Cookie
      → Page × Cookie
  login_handler admin_secret fault payload users cookie =
      if is_blank payload.username || is_blank payload.password
      then (answered (refused "Username and password are required"), cookie)
      else if payload.username =? "admin" && (payload.password =? admin_secret)
      then opened
      else login_user payload.password
          (attempt fault (done (find_row user_key payload.username users))) cookie

unfoldable pub logout_handler : Cookie → Page × Cookie
logout_handler cookie = (redirected "/dashboard/login", none)

abbrev pub is_authenticated : Cookie → Bool
is_authenticated none = false
is_authenticated (some value) = value =? "authenticated"

unfoldable pub dashboard_index : (index_html : String) → Cookie → Page
dashboard_index index_html cookie =
    if is_authenticated cookie then html index_html else redirected "/dashboard/login"

abbrev begins : (prefix path : String) → Bool
begins prefix path = elim (strip_prefix prefix path) [ none ↦ false | some rest ↦ true ]

-- `auth_middleware`; `next` is what the route behind it answers.
unfoldable pub auth_middleware : (path : String) → Cookie → (next : Page) → Page
auth_middleware path cookie next =
    if begins "/dashboard/login" path || begins "/static/" path
    then next
    else if is_authenticated cookie
    then next
    else redirected "/dashboard/login"
