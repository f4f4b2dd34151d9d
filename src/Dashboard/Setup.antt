-- ===== src/Dashboard/Setup.antt =====
-- What src/main.rs has src/dashboard.rs do to the database before it serves: `initialize_database`,
-- `create_initial_admin_user` and the `create_sample_…` functions. `hash_password` is that function, with
-- a random salt; `fault i` is the failure of the `i`-th statement of a function, if it fails.
pub mod Examples
pub mod Settled
use calude_proxy.Base.{
  ℕ, String, Bool, true, false, not, Option, none, some, List, [], ◌∷◌, ◌++◌, length, is_empty, ◌+◌,
  ◌⧺◌, ◌==◌, if◌then◌else◌,
}
use calude_proxy.Error.{ProxyError, ErrorKind, Result, ok, err, new}
use calude_proxy.Config.{
  AppConfig, CapabilityProfile, CredentialConfig, ProviderKind, SecretRef, default_limits,
  default_profile, default_server,
}
use calude_proxy.Dashboard.{DbError, Answer, done, failed, attempt}
use calude_proxy.Dashboard.Tables.{AuthUser, Database, RouteRow, find_row, insert_row}
use calude_proxy.Dashboard.Tables.Keyed.{is_present}
use calude_proxy.Dashboard.Versions.{insert_version, i32_zero}
use calude_proxy.Dashboard.Clients.{insert_client}
use calude_proxy.Dashboard.Providers.{insert_provider}
use calude_proxy.Dashboard.Routes.{route_key, insert_route}
use calude_proxy.Dashboard.Session.{user_key}

-- A database after src/migrations, when there was none before. The second migration enters a user
-- `admin` with a placeholder for the hash of its password.
abbrev pub placeholder_hash : String
placeholder_hash = "$argon2id$v=19$m=65536,t=3,p=4$example_salt$example_hash"

unfoldable pub migrated : Database
migrated = record {
  versions = [];
  clients = [];
  providers = [];
  routes = [];
  last_route = 0;
  targets = [];
  admin_users = record { id = 1; username = "admin"; password_hash = placeholder_hash } ∷ [];
}

-- The migrations are run once: a database that has them is left as it is.
unfoldable pub initialize_database : Option Database → Database
initialize_database none = migrated
initialize_database (some db) = db

abbrev pub Faults : Type 0
Faults = ℕ → Option String

-- A database, and what a function returns.
abbrev pub Outcome : Type 0
Outcome = Database × Result (Unit {0})

module _ (db_text : DbError → String) where
  abbrev pub internal_error : (doing : String) → DbError → Result (Unit {0})
  internal_error doing e = err (new ErrorKind.internal (doing ⧺ ": " ⧺ db_text e))

  -- `SELECT 1 …`, and what follows if it finds no row.
  unfoldable pub unless_found :
      (fault : Option String) (doing : String) (found : Bool) (db : Database)
      → (otherwise : Outcome) → Outcome
  unless_found none doing found db otherwise = if found then (db, ok tt) else otherwise
  unless_found (some message) doing found db otherwise =
      (db, internal_error doing (DbError.unavailable message))

  -- An `INSERT` with what is done to the rest of the database.
  unfoldable pub inserted {ℓ} :
      {Rows : Type ℓ} → (doing : String) (db : Database) → (Rows → Outcome) → Answer Rows → Outcome
  inserted doing db next (done rows) = next rows
  inserted doing db next (failed e) = (db, internal_error doing e)

  unfoldable pub create_initial_admin_user :
      Faults → (hash_password : String → Result String) (admin_secret : String) → Database → Outcome
  create_initial_admin_user fault hash_password admin_secret db =
      unless_found (fault 0) "Failed to check for admin user"
        (is_present (find_row user_key "admin" db.admin_users)) db
        (elim (hash_password admin_secret) [
          | err e ↦ (db, err e)
          | ok password_hash ↦
              inserted "Failed to create admin user" db
                (λ users. (record db { admin_users = users }, ok tt))
                (attempt (fault 1) (
                  insert_row user_key "admin_users.username"
                    (record {
                      id = length db.admin_users + 1;
                      username = "admin";
                      password_hash = password_hash;
                    })
                    db.admin_users))
        ])

  unfoldable pub create_sample_client : Faults → Database → Outcome
  create_sample_client fault db =
      unless_found (fault 0) "Failed to check for existing clients" (not (is_empty db.clients)) db (
        inserted "Failed to create sample client" db
          (λ clients. (record db { clients = clients }, ok tt))
          (attempt (fault 1) (
            insert_client "engineering" (some "sample_hash") (some "sample_salt") "sonnet,haiku" 600
              100 db.clients)))

  unfoldable pub create_sample_provider :
      Faults → (to_json : CapabilityProfile → Result String) → Database → Outcome
  create_sample_provider fault to_json db =
      unless_found (fault 0) "Failed to check for existing providers" (not (is_empty db.providers))
        db
        (elim (to_json default_profile) [
          | err e ↦ (db, err e)
          | ok profile ↦
              inserted "Failed to create sample provider" db
                (λ providers. (record db { providers = providers }, ok tt))
                (attempt (fault 1) (
                  insert_provider "openai" "openai_chat" "https://api.openai.com/v1" (some "bearer")
                    (some "OPENAI_API_KEY") (some "{}") profile false db.providers))
        ])

  -- `INSERT INTO route_targets`, whose foreign key wants the row of the route.
  unfoldable pub insert_target : (route_id : ℕ) → List RouteRow → Database → Answer Database
  insert_target route_id [] db = failed (DbError.foreign_key_failed "route_targets.route_id")
  insert_target route_id (row ∷ rest) db =
      let later = insert_target route_id rest db in
      if row.id == route_id
      then done (record db {
        targets =
            db.targets
            ++ record {
              route_id = route_id;
              provider_id = "openai";
              model = "gpt-4.1";
              priority = 1;
              weight = 100;
            }
              ∷ [];
      })
      else later

  -- `SELECT id … fetch_one`, which fails if there is no such row, and the target.
  unfoldable pub target_of : Faults → Database → Option RouteRow → Outcome
  target_of fault db none =
      (db, internal_error "Failed to get route ID" (DbError.unavailable "no rows returned"))
  target_of fault db (some row) =
      inserted "Failed to create route target" db (λ after. (after, ok tt))
        (attempt (fault 3) (insert_target row.id db.routes db))

  unfoldable pub create_sample_route : Faults → Database → Outcome
  create_sample_route fault db =
      unless_found (fault 0) "Failed to check for existing routes" (not (is_empty db.routes)) db (
        inserted "Failed to create sample route" db
          (λ (with_row : Database).
            inserted "Failed to get route ID" with_row (target_of fault with_row)
              (attempt (fault 2) (done (find_row route_key "sonnet" with_row.routes))))
          (attempt (fault 1) (insert_route "sonnet" "claude-*-sonnet-*,claude-sonnet-*" db)))

  -- The configuration that is stored as version 1, with the server's defaults.
  abbrev pub sample_config : AppConfig
  sample_config = record {
    server = default_server;
    limits = default_limits;
    clients =
        record {
          id = "engineering";
          key = SecretRef.env "PROXY_CLIENT_KEY";
          allowed_routes = "sonnet" ∷ "haiku" ∷ [];
          requests_per_minute = 600;
          concurrent_requests = 100;
        }
        ∷ [];
    providers =
        record {
          id = "openai";
          kind = ProviderKind.openai_chat;
          endpoint = "https://api.openai.com/v1";
          credential = CredentialConfig.bearer (SecretRef.env "OPENAI_API_KEY");
          headers = [];
          capability_profile = default_profile;
          allow_insecure_http = false;
        }
        ∷ [];
    routes =
        record {
          id = "sonnet";
          models = "claude-*-sonnet-*" ∷ "claude-sonnet-*" ∷ [];
          targets =
              record { provider = "openai"; model = "gpt-4.1"; priority = 1; weight = 100 } ∷ [];
        }
        ∷ record {
          id = "haiku";
          models = "claude-*-haiku-*" ∷ "claude-haiku-*" ∷ [];
          targets =
              record { provider = "openai"; model = "gpt-4.1-mini"; priority = 1; weight = 100 }
              ∷ [];
        }
        ∷ [];
  }

  unfoldable pub create_sample_config :
      Faults → (to_yaml : AppConfig → Result String) → (now : String) → Database → Outcome
  create_sample_config fault to_yaml now db =
      unless_found (fault 0) "Failed to check for existing config" (not (is_empty db.versions)) db
        (elim (to_yaml sample_config) [
          | err e ↦ (db, err e)
          | ok config_data ↦
              inserted "Failed to create sample config" db (λ after. (after, ok tt))
                (attempt (fault 1) (
                  done (record db {
                    versions = insert_version (i32_zero + 1) config_data "system" now db.versions;
                  })))
        ])

  -- `?` between the steps.
  infixl 5 ◌>=>◌
  abbrev pub ◌>=>◌ : Outcome → (Database → Outcome) → Outcome
  (db, err e) >=> next = (db, err e)
  (db, ok u) >=> next = next db

  -- The steps of `serve`, each with its own faults.
  unfoldable pub set_up :
      (faults : ℕ → Faults) (hash_password : String → Result String) (admin_secret : String)
      (to_yaml : AppConfig → Result String) (to_json : CapabilityProfile → Result String)
      (now : String)
      → Database
      → Outcome
  set_up faults hash_password admin_secret to_yaml to_json now db =
      create_initial_admin_user (faults 0) hash_password admin_secret db
      >=> create_sample_config (faults 1) to_yaml now
      >=> create_sample_client (faults 2)
      >=> create_sample_provider (faults 3) to_json
      >=> create_sample_route (faults 4)
