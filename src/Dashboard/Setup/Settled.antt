-- ===== src/Dashboard/Setup/Settled.antt =====
-- The state that the steps before serving lead to, and stay in.
use calude_proxy.Base.{
  ◌≡◌, refl, String, Bool, true, false, not, none, some, List, is_empty, Option-cases, inl, inr,
}
use calude_proxy.Error.{Result, ok}
use calude_proxy.Config.{AppConfig, CapabilityProfile}
use calude_proxy.Dashboard.{DbError}
use calude_proxy.Dashboard.Tables.{AuthUser, Database, find_row}
use calude_proxy.Dashboard.Tables.Keyed.{is_present}
use calude_proxy.Dashboard.Session.{user_key}
use calude_proxy.Dashboard.Setup.{
  Faults, Outcome, migrated, initialize_database, unless_found, create_initial_admin_user,
  create_sample_client, create_sample_provider, create_sample_route, create_sample_config, set_up,
}

module _ (db_text : DbError → String) where
  -- On a database that has just been migrated, no password of an administrator is stored: whatever
  -- the secret, `create_initial_admin_user` finds the user of the migration and leaves the
  -- placeholder as its hash.
  pub migrated_admin :
      (fault : Faults) (hash_password : String → Result String) (admin_secret : String)
      → (create_initial_admin_user db_text fault hash_password admin_secret
          (initialize_database none)).0
        ≡ initialize_database none
  unfolding initialize_database migrated create_initial_admin_user unless_found find_row
  migrated_admin fault hash_password admin_secret = elim (Option-cases (fault 0)) [
    | inl works ↦ rw (works, unless_found) refl
    | inr (message, fails) ↦ rw (fails, unless_found) refl
  ]

  -- A database that has something in each of the tables that the steps look at.
  pub record IsSettled (db : Database) : Type 0 where
    pub admin : (user : AuthUser) × (find_row user_key "admin" db.admin_users ≡ some user)
    pub versions : is_empty db.versions ≡ false
    pub clients : is_empty db.clients ≡ false
    pub providers : is_empty db.providers ≡ false
    pub routes : is_empty db.routes ≡ false

  found_kept :
      (doing : String) (found : Bool) (db : Database) (otherwise : Outcome)
      → found ≡ true
      → unless_found db_text none doing found db otherwise ≡ (db, ok tt)
  unfolding unless_found
  found_kept doing found db otherwise h = rw h refl

  filled {ℓ} : {A : Type ℓ} (xs : List A) → is_empty xs ≡ false → not (is_empty xs) ≡ true
  filled xs h = rw h refl

  -- The steps before serving leave a database alone that has an administrator, a version of the
  -- configuration, a client, a provider and a route, whatever the secret and the time.
  pub set_up_kept :
      (hash_password : String → Result String) (admin_secret : String)
      (to_yaml : AppConfig → Result String) (to_json : CapabilityProfile → Result String)
      (now : String) (db : Database)
      → IsSettled db
      → set_up db_text (λ step i. none) hash_password admin_secret to_yaml to_json now db
        ≡ (db, ok tt)
  unfolding set_up create_initial_admin_user create_sample_client create_sample_provider
      create_sample_route create_sample_config
  set_up_kept hash_password admin_secret to_yaml to_json now db s =
      rw
        (
          found_kept "Failed to check for admin user"
              (is_present (find_row user_key "admin" db.admin_users)) db _ (rw s.admin.1 refl),
          found_kept "Failed to check for existing config" (not (is_empty db.versions)) db _
              (filled db.versions s.versions),
          found_kept "Failed to check for existing clients" (not (is_empty db.clients)) db _
              (filled db.clients s.clients),
          found_kept "Failed to check for existing providers" (not (is_empty db.providers)) db _
              (filled db.providers s.providers),
          found_kept "Failed to check for existing routes" (not (is_empty db.routes)) db _
              (filled db.routes s.routes),
        )
        refl
