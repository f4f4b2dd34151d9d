-- ===== src/Dashboard/Creation.antt =====
-- `create_client` and `create_provider` of src/dashboard.rs against the tables of
-- src/migrations/0001_initial_schema.sql: their INSERT statements leave out columns that are NOT NULL.
pub mod Examples
use calude_proxy.Base.{
  ◌≡◌, refl, ap, String, Bool, true, false, Option, none, some, List, Option-cases, inl, inr,
}
use calude_proxy.Config.{CapabilityProfile, ClientConfig, ProviderConfig}
use calude_proxy.Dashboard.{ApiResponse, DbError}
use calude_proxy.Dashboard.Tables.{ClientRow, ProviderRow}
use calude_proxy.Dashboard.Clients.{insert_client, create_client}
use calude_proxy.Dashboard.Providers.{insert_provider, create_provider}

-- Whatever client, or provider, is sent, and whatever the tables hold: the request to create it is
-- refused and the table stays as it is.
pub create_refused :
    (db_text : DbError → String) (to_json : CapabilityProfile → Option String)
    (json_error : CapabilityProfile → String) (fault : Option String) (client : ClientConfig)
    (clients : List ClientRow) (provider : ProviderConfig) (providers : List ProviderRow)
    → ((create_client db_text fault client clients).1.success ≡ false)
      × ((create_client db_text fault client clients).0 ≡ clients)
      × ((create_provider db_text to_json json_error fault provider providers).1.success ≡ false)
      × ((create_provider db_text to_json json_error fault provider providers).0 ≡ providers)
unfolding create_client insert_client create_provider insert_provider
create_refused db_text to_json json_error none client clients provider providers =
    elim (Option-cases (to_json provider.capability_profile)) [
      | inl unprinted ↦
          (refl, refl, rw (unprinted, create_provider) refl, rw (unprinted, create_provider) refl)
      | inr (profile, printed) ↦
          (refl, refl, rw (printed, create_provider) refl, rw (printed, create_provider) refl)
    ]
create_refused db_text to_json json_error (some message) client clients provider providers =
    elim (Option-cases (to_json provider.capability_profile)) [
      | inl unprinted ↦
          (refl, refl, rw (unprinted, create_provider) refl, rw (unprinted, create_provider) refl)
      | inr (profile, printed) ↦
          (refl, refl, rw (printed, create_provider) refl, rw (printed, create_provider) refl)
    ]
