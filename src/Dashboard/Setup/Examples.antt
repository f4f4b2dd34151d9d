-- ===== src/Dashboard/Setup/Examples.antt =====
-- The first start, with a secret of the administrator.
use calude_proxy.Base.{ℕ, ◌≡◌, String, Option, none}
use calude_proxy.Error.{Result, ok}
use calude_proxy.Dashboard.{DbError}
use calude_proxy.Dashboard.Setup.{initialize_database, create_initial_admin_user}
use calude_proxy.Dashboard.Setup.Settled.{migrated_admin}

abbrev any_text : DbError → String
any_text e = "database is locked"

abbrev no_fault : ℕ → Option String
no_fault i = none

abbrev plain_hash : String → Result String
plain_hash password = ok password

migrated_admin_example :
    (create_initial_admin_user any_text no_fault plain_hash "open sesame"
      (initialize_database none)).0
    ≡ initialize_database none
migrated_admin_example = migrated_admin any_text no_fault plain_hash "open sesame"
