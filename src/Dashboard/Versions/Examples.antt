-- ===== src/Dashboard/Versions/Examples.antt =====
-- A configuration that is saved and reverted to, and two updates at the same time.
use calude_proxy.Base.{
  ℕ, ◌+◌, ◌≡◌, refl, String, true, false, Option, none, some, List, [], ◌∷◌, ◌++◌, length, arith,
}
use calude_proxy.Error.{ProxyError, Result}
use calude_proxy.Json.{Value, null}
use calude_proxy.Config.{AppConfig}
use calude_proxy.Config.Validate.Examples.{unreadable, secrets, bare_url, any_header, config}
use calude_proxy.Process.{load_from_value}
use calude_proxy.Dashboard.{DbError}
use calude_proxy.Dashboard.Tables.{ConfigVersion}
use calude_proxy.Dashboard.Versions.{
  i32_next, get_config, get_version, list_versions, current_version, store_version,
}
use calude_proxy.Dashboard.Versions.Numbered.{Numbered, texts, text_at, last_text, backwards}
use calude_proxy.Dashboard.Versions.Shown.{shown_text, shown_texts}
use calude_proxy.Dashboard.Versions.Log.{
  Save, updated, reverted, first_version, saves, log, saves_lem,
}
use calude_proxy.Dashboard.Versions.Races.{update_race}

abbrev any_text : DbError → String
any_text e = "database is locked"

abbrev any_error : ProxyError → String
any_error e = "invalid configuration"

abbrev any_payload : Value → Option AppConfig
any_payload value = some config

abbrev no_text : Value → String
no_text value = ""

abbrev one_config : Value → Result AppConfig
one_config = load_from_value bare_url unreadable any_header any_payload no_text secrets

abbrev one_text : AppConfig → Option String
one_text c = some "server: {}"

abbrev no_message : AppConfig → String
no_message c = ""

abbrev history : List Save
history =
    reverted first_version "10:02" none none
    ∷ updated null "10:01" (some "disk full")
    ∷ updated null "10:00" none
    ∷ []

saves_lem_example :
    let rows = saves any_text any_error one_config one_text no_message history in
    let held = log any_text any_error one_config one_text no_message history in
    (shown_text (get_config any_text none rows) ≡ last_text held)
    × ((version : ℕ)
        → shown_text (get_version any_text none version rows) ≡ text_at first_version version held)
    × (shown_texts (list_versions any_text none rows) ≡ some (backwards held))
saves_lem_example =
    saves_lem any_text any_error one_config one_text no_message history (omega arith)

abbrev stored : List ConfigVersion
stored =
    record {
      id = 1;
      version = first_version;
      config_data = "server: {}";
      created_at = "10:00";
      created_by = "system";
      is_current = false;
    }
    ∷ []

update_race_example :
    let version = i32_next (current_version none stored) in
    let first = store_version any_text none version "a" "10:01" "saved" stored in
    let second = store_version any_text none version "b" "10:01" "saved too" first.0 in
    (first.1.success ≡ true)
    × (second.1.success ≡ true)
    × (length second.0 ≡ length stored + 2)
    × ((v : ℕ)
        → shown_text (get_version any_text none v second.0)
          ≡ text_at first_version v (texts stored ++ "a" ∷ []))
unfolding Numbered
update_race_example =
    update_race any_text stored "a" "b" "10:01" "10:01" "saved" "saved too" (refl, tt) (omega arith)
