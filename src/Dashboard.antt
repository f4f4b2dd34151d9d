-- ===== src/Dashboard.antt =====
-- src/dashboard.rs: the administration interface over its SQLite database, whose tables are those of
-- src/migrations. Every reply is an `ApiResponse` with status 200, a page or a redirect.
pub mod Text
pub mod Tables
pub mod Versions
pub mod Clients
pub mod Providers
pub mod Routes
pub mod Creation
pub mod Session
pub mod Setup
use calude_proxy.Base.{
  String, Bool, true, false, Option, none, some, ◌⧺◌, List, ℕ, ltb, if◌then◌else◌,
}

-- `ApiResponse`; its field `data` is `content` here.
pub record ApiResponse {ℓ} (T : Type ℓ) : Type ℓ where
  pub success : Bool
  pub content : Option T
  pub error : Option String

-- `ApiResponse::success` and `ApiResponse::error`.
abbrev pub succeeded {ℓ} : {T : Type ℓ} → T → ApiResponse T
succeeded value = record { success = true; content = some value; error = none }

abbrev pub refused {ℓ} : {T : Type ℓ} → String → ApiResponse T
refused message = record { success = false; content = none; error = some message }

-- What the database says of a statement that fails: a constraint of the named column, or anything
-- else that goes wrong.
pub data DbError : Type 0 where
  not_null_failed unique_failed foreign_key_failed unavailable : String → DbError

pub data Answer {ℓ} (A : Type ℓ) : Type ℓ where
  done : A → Answer A
  failed : DbError → Answer A

-- A statement that the environment may let fail, whatever it would do.
abbrev pub attempt {ℓ} : {A : Type ℓ} → (fault : Option String) → Answer A → Answer A
attempt none answer = answer
attempt (some message) answer = failed (unavailable message)

module _ (db_text : DbError → String) where
  abbrev pub database_error {ℓ} : {T : Type ℓ} → DbError → ApiResponse T
  database_error e = refused ("Database error: " ⧺ db_text e)

  -- The reply to a query for one row.
  abbrev pub reply_to_query {ℓ} :
      {T : Type ℓ} → (missing : String) → Answer (Option T) → ApiResponse T
  reply_to_query missing (done (some found)) = succeeded found
  reply_to_query missing (done none) = refused missing
  reply_to_query missing (failed e) = database_error e

  abbrev pub reply_to_list {ℓ} : {T : Type ℓ} → Answer (List T) → ApiResponse (List T)
  reply_to_list (done found) = succeeded found
  reply_to_list (failed e) = database_error e

  -- The reply to an `INSERT`, with the rows after it.
  abbrev pub reply_to_insert {ℓ} :
      {Row : Type ℓ}
      → (message : String) (rows : List Row) → Answer (List Row)
      → List Row × ApiResponse String
  reply_to_insert message rows (done after) = (after, succeeded message)
  reply_to_insert message rows (failed e) = (rows, database_error e)

  -- The reply to an `UPDATE` or a `DELETE`: whether it affected a row.
  abbrev pub reply_to_change {ℓ} :
      {Row : Type ℓ}
      → (message missing : String) (rows : List Row) → Answer (List Row × ℕ)
      → List Row × ApiResponse String
  reply_to_change message missing rows (done (after, affected)) =
      (after, if ltb 0 affected then succeeded message else refused missing)
  reply_to_change message missing rows (failed e) = (rows, database_error e)
