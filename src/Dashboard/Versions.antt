-- ===== src/Dashboard/Versions.antt =====
-- The versions of the configuration in src/dashboard.rs: `get_config`, `update_config`,
-- `list_versions`, `get_version` and `revert_version`. `load_from_value` is that of Process, with its
-- parameters filled. `db_text` is how an error of the database is displayed, `error_text` how a
-- `ProxyError` is; `to_yaml` stands for `serde_yaml::to_string`, with `yaml_error` for its message.
-- `now` is what `datetime('now')` answers in the statement.
pub mod Numbered
pub mod Shown
pub mod Log
pub mod Races
pub mod Examples
use calude_proxy.Base.{
  ℕ, ◌+◌, ◌-◌, ◌%◌, ◌^◌, String, Bool, true, false, Option, none, some, List, [], ◌∷◌, ◌++◌, length,
  ltb, leb, ◌==◌, decimal, ◌⧺◌, if◌then◌else◌,
}
use calude_proxy.Error.{ProxyError, Result, ok, err}
use calude_proxy.Json.{Value, unwrap_or}
use calude_proxy.Config.{AppConfig}
use calude_proxy.Dashboard.{
  ApiResponse, succeeded, refused, DbError, Answer, done, failed, attempt, database_error,
  reply_to_query, reply_to_list,
}
use calude_proxy.Dashboard.Tables.{ConfigVersion, Database}

-- The `i32` numbers 0 and 1, a sum of two as the release build computes it, and the display.
abbrev pub i32_zero : ℕ
i32_zero = 2147483648

unfoldable pub i32_next : ℕ → ℕ
i32_next v = (v + 1) % 4294967296

unfoldable pub i32_text : ℕ → String
i32_text v = if ltb v i32_zero then "-" ⧺ decimal (i32_zero - v) else decimal (v - i32_zero)

-- `MAX(version)`.
unfoldable pub max_version : List ConfigVersion → Option ℕ
max_version [] = none
max_version (row ∷ rest) = elim (max_version rest) [
  | none ↦ some row.version
  | some most ↦ some (if ltb most row.version then row.version else most)
]

-- `ORDER BY version DESC LIMIT 1`. SQLite leaves it open which of several rows of one version comes
-- first; here it is the one that was entered first.
unfoldable pub latest : List ConfigVersion → Option ConfigVersion
latest [] = none
latest (row ∷ rest) = elim (latest rest) [
  | none ↦ some row
  | some best ↦ some (if ltb row.version best.version then best else row)
]

-- `ORDER BY version DESC`.
unfoldable pub insert_descending : ConfigVersion → List ConfigVersion → List ConfigVersion
insert_descending row [] = row ∷ []
insert_descending row (other ∷ rest) =
    if ltb row.version other.version then other ∷ insert_descending row rest else row ∷ other ∷ rest

unfoldable pub descending : List ConfigVersion → List ConfigVersion
descending [] = []
descending (row ∷ rest) = insert_descending row (descending rest)

-- `WHERE version = ?`.
unfoldable pub find_version : ℕ → List ConfigVersion → Option ConfigVersion
find_version v [] = none
find_version v (row ∷ rest) = if row.version == v then some row else find_version v rest

-- `INSERT INTO config_versions`: the other columns have their defaults, and `id` counts the rows,
-- none of which is ever deleted.
unfoldable pub insert_version :
    (version : ℕ) (config_data created_by now : String) → List ConfigVersion → List ConfigVersion
insert_version version config_data created_by now rows =
    rows
    ++ record {
      id = length rows + 1;
      version = version;
      config_data = config_data;
      created_at = now;
      created_by = created_by;
      is_current = false;
    }
      ∷ []

-- `SELECT COALESCE(MAX(version), 0)`, with the `unwrap_or(0)` that hides its failure.
unfoldable pub current_version : (fault : Option String) → List ConfigVersion → ℕ
current_version none rows = unwrap_or (max_version rows) i32_zero
current_version (some message) rows = i32_zero

module _ (db_text : DbError → String) where
  unfoldable pub get_config :
      (fault : Option String) → List ConfigVersion → ApiResponse ConfigVersion
  get_config fault rows =
      reply_to_query db_text "No configuration found" (attempt fault (done (latest rows)))

  unfoldable pub list_versions :
      (fault : Option String) → List ConfigVersion → ApiResponse (List ConfigVersion)
  list_versions fault rows = reply_to_list db_text (attempt fault (done (descending rows)))

  unfoldable pub get_version :
      (fault : Option String) → ℕ → List ConfigVersion → ApiResponse ConfigVersion
  get_version fault version rows =
      reply_to_query db_text "Version not found" (attempt fault (done (find_version version rows)))

  -- The `INSERT` under a number that was computed before, and the reply.
  unfoldable pub store_version :
      (fault : Option String) (version : ℕ) (config_data now message : String)
      → List ConfigVersion
      → List ConfigVersion × ApiResponse String
  store_version none version config_data now message rows =
      (insert_version version config_data "admin" now rows, succeeded message)
  store_version (some text) version config_data now message rows =
      (rows, database_error db_text (DbError.unavailable text))

  -- From what `serde_yaml::to_string` answers on.
  unfoldable pub update_printed :
      (read_fault write_fault : Option String) (yaml_error now : String)
      → Option String
      → List ConfigVersion
      → List ConfigVersion × ApiResponse String
  update_printed read_fault write_fault yaml_error now none rows =
      (rows, refused ("Invalid configuration: " ⧺ yaml_error))
  update_printed read_fault write_fault yaml_error now (some config_data) rows =
      let new_version = i32_next (current_version read_fault rows) in
      store_version write_fault new_version config_data now
        ("Configuration updated to version " ⧺ i32_text new_version) rows

  module _ (error_text : ProxyError → String) (to_yaml : AppConfig → Option String)
      (yaml_error : AppConfig → String) where
    -- From what `AppConfig::load_from_value` answers on.
    unfoldable pub update_loaded :
        (read_fault write_fault : Option String) (now : String)
        → Result AppConfig
        → List ConfigVersion
        → List ConfigVersion × ApiResponse String
    update_loaded read_fault write_fault now (err e) rows =
        (rows, refused ("Invalid configuration: " ⧺ error_text e))
    update_loaded read_fault write_fault now (ok config) rows =
        update_printed read_fault write_fault (yaml_error config) now (to_yaml config) rows

    unfoldable pub update_config :
        (load_from_value : Value → Result AppConfig) (read_fault write_fault : Option String)
        (now : String)
        → Value
        → List ConfigVersion
        → List ConfigVersion × ApiResponse String
    update_config load_from_value read_fault write_fault now payload rows =
        update_loaded read_fault write_fault now (load_from_value payload) rows

  -- From the answer to the first query on.
  unfoldable pub revert_found :
      (read_fault write_fault : Option String) (now : String) (version : ℕ)
      → Answer (Option ConfigVersion)
      → List ConfigVersion
      → List ConfigVersion × ApiResponse String
  revert_found read_fault write_fault now version (failed e) rows = (rows, database_error db_text e)
  revert_found read_fault write_fault now version (done none) rows =
      (rows, refused "Version not found")
  revert_found read_fault write_fault now version (done (some row)) rows =
      let new_version = i32_next (current_version read_fault rows) in
      store_version write_fault new_version row.config_data now
        ("Reverted to version " ⧺ i32_text version ⧺ " as version " ⧺ i32_text new_version) rows

  unfoldable pub revert_version :
      (find_fault read_fault write_fault : Option String) (now : String) (version : ℕ)
      → List ConfigVersion
      → List ConfigVersion × ApiResponse String
  revert_version find_fault read_fault write_fault now version rows =
      revert_found read_fault write_fault now version
        (attempt find_fault (done (find_version version rows))) rows
