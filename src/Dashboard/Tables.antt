-- ===== src/Dashboard/Tables.antt =====
-- The tables of src/migrations, with the columns that src/dashboard.rs reads or writes, and the
-- statements that it runs on them. A row stands after the rows that were entered before it.
pub mod Keyed
use calude_proxy.Base.{
  ℕ, suc, ◌+◌, String, Bool, true, false, Option, none, some, List, [], ◌∷◌, ◌++◌, length, ltb,
  ◌==◌, ◌=?◌, if◌then◌else◌,
}
use calude_proxy.Dashboard.{DbError, Answer, done, failed}

-- The rows as src/dashboard.rs reads them: `ConfigVersion` and `AuthUser`. A version is an `i32`; it
-- is kept as the number that is 2^31 larger, so that order and sum are those of ℕ modulo 2^32.
pub record ConfigVersion : Type 0 where
  pub id : ℕ
  pub version : ℕ
  pub config_data : String
  pub created_at : String
  pub created_by : String
  pub is_current : Bool

pub record AuthUser : Type 0 where
  pub id : ℕ
  pub username : String
  pub password_hash : String

pub record ClientRow : Type 0 where
  pub client_id : String
  pub key_hash : String
  pub key_salt : String
  pub allowed_routes : String
  pub requests_per_minute : ℕ
  pub concurrent_requests : ℕ

pub record ProviderRow : Type 0 where
  pub provider_id : String
  pub kind : String
  pub endpoint : String
  pub credential_type : String
  pub credential_secret_ref : String
  pub headers : String
  pub capability_profile : String
  pub allow_insecure_http : Bool

pub record RouteRow : Type 0 where
  pub id : ℕ
  pub route_id : String
  pub models : String

-- `route_targets`, whose `route_id` is the `id` of a row of `routes`.
pub record TargetRow : Type 0 where
  pub route_id : ℕ
  pub provider_id : String
  pub model : String
  pub priority : ℕ
  pub weight : ℕ

-- `last_route` is the largest `id` that `routes` has ever had, which AUTOINCREMENT counts up.
pub record Database : Type 0 where
  pub versions : List ConfigVersion
  pub clients : List ClientRow
  pub providers : List ProviderRow
  pub routes : List RouteRow
  pub last_route : ℕ
  pub targets : List TargetRow
  pub admin_users : List AuthUser

-- A table whose rows have a UNIQUE key.
module _ {ℓ} {Row : Type ℓ} (key : Row → String) where
  -- `SELECT … WHERE key = ?` with `fetch_optional`.
  unfoldable pub find_row : String → List Row → Option Row
  find_row k [] = none
  find_row k (row ∷ rest) = if key row =? k then some row else find_row k rest

  -- `INSERT`, against the column's UNIQUE constraint.
  unfoldable pub insert_row : (column : String) → Row → List Row → Answer (List Row)
  insert_row column row rows = elim (find_row (key row) rows) [
    | none ↦ done (rows ++ row ∷ [])
    | some other ↦ failed (DbError.unique_failed column)
  ]

  -- `UPDATE … WHERE key = ?`: the rows after it, and how many were affected.
  unfoldable pub update_rows : (Row → Row) → String → List Row → List Row × ℕ
  update_rows change k [] = ([], 0)
  update_rows change k (row ∷ rest) =
      let (others, affected) = update_rows change k rest in
      if key row =? k then (change row ∷ others, suc affected) else (row ∷ others, affected)

  -- `DELETE … WHERE key = ?`.
  unfoldable pub delete_rows : String → List Row → List Row × ℕ
  delete_rows k [] = ([], 0)
  delete_rows k (row ∷ rest) =
      let (others, affected) = delete_rows k rest in
      if key row =? k then (others, suc affected) else (row ∷ others, affected)

-- A value for a NOT NULL column with no default, if the statement gives one.
abbrev pub not_null {ℓ} :
    {A : Type ℓ} → (column : String) → Option String → (String → Answer A) → Answer A
not_null column none use_value = failed (DbError.not_null_failed column)
not_null column (some value) use_value = use_value value
