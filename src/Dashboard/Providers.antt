-- ===== src/Dashboard/Providers.antt =====
-- The providers of src/dashboard.rs: `list_providers`, `create_provider`, `get_provider`,
-- `update_provider` and `delete_provider`. `to_json` stands for `serde_json::to_string` of a profile and
-- `json_error` for its message.
use calude_proxy.Base.{String, Bool, Option, none, some, List, map, ◌⧺◌}
use calude_proxy.Config.{ProviderConfig, ProviderKind, CapabilityProfile}
use calude_proxy.Dashboard.{
  ApiResponse, DbError, Answer, done, attempt, refused, reply_to_query, reply_to_list,
  reply_to_insert, reply_to_change,
}
use calude_proxy.Dashboard.Tables.{
  ProviderRow, find_row, insert_row, update_rows, delete_rows, not_null,
}

pub record DbProvider : Type 0 where
  pub id : String
  pub kind : String
  pub endpoint : String
  pub capability_profile : String
  pub allow_insecure_http : Bool

abbrev pub provider_key : ProviderRow → String
provider_key row = row.provider_id

-- `Display` of `ProviderKind`.
unfoldable pub kind_text : ProviderKind → String
kind_text ProviderKind.openai_chat = "openai_chat"
kind_text ProviderKind.azure_chat = "azure_chat"

unfoldable pub row_to_provider : ProviderRow → DbProvider
row_to_provider row = record {
  id = row.provider_id;
  kind = row.kind;
  endpoint = row.endpoint;
  capability_profile = row.capability_profile;
  allow_insecure_http = row.allow_insecure_http;
}

abbrev pub shown_provider : Option ProviderRow → Option DbProvider
shown_provider none = none
shown_provider (some row) = some (row_to_provider row)

-- An `INSERT INTO providers` that may leave out the credential and the headers.
unfoldable pub insert_provider :
    (provider_id kind endpoint : String)
    (credential_type credential_secret_ref headers : Option String) (capability_profile : String)
    (allow_insecure_http : Bool)
    → List ProviderRow
    → Answer (List ProviderRow)
insert_provider provider_id kind endpoint credential_type secret_ref headers profile insecure rows =
    not_null "providers.credential_type" credential_type (λ given_type.
      not_null "providers.credential_secret_ref" secret_ref (λ given_ref.
        not_null "providers.headers" headers (λ given_headers.
          insert_row provider_key "providers.provider_id"
            (record {
              provider_id = provider_id;
              kind = kind;
              endpoint = endpoint;
              credential_type = given_type;
              credential_secret_ref = given_ref;
              headers = given_headers;
              capability_profile = profile;
              allow_insecure_http = insecure;
            })
            rows)))

-- What the `SET` clause writes.
abbrev pub set_provider : ProviderConfig → (capability_profile : String) → ProviderRow → ProviderRow
set_provider provider capability_profile row = record row {
  kind = kind_text provider.kind;
  endpoint = provider.endpoint;
  capability_profile = capability_profile;
  allow_insecure_http = provider.allow_insecure_http;
}

module _ (db_text : DbError → String) where
  unfoldable pub list_providers :
      (fault : Option String) → List ProviderRow → ApiResponse (List DbProvider)
  list_providers fault rows =
      reply_to_list db_text (attempt fault (done (map row_to_provider rows)))

  unfoldable pub get_provider :
      (fault : Option String) → String → List ProviderRow → ApiResponse DbProvider
  get_provider fault id rows =
      reply_to_query db_text "Provider not found"
        (attempt fault (done (shown_provider (find_row provider_key id rows))))

  unfoldable pub delete_provider :
      (fault : Option String) → String → List ProviderRow → List ProviderRow × ApiResponse String
  delete_provider fault id rows =
      reply_to_change db_text "Provider deleted successfully" "Provider not found" rows
        (attempt fault (done (delete_rows provider_key id rows)))

  module _ (to_json : CapabilityProfile → Option String)
      (json_error : CapabilityProfile → String) where
    unfoldable pub create_provider :
        (fault : Option String)
        → ProviderConfig
        → List ProviderRow
        → List ProviderRow × ApiResponse String
    create_provider fault provider rows = elim (to_json provider.capability_profile) [
      | none ↦
          (rows, refused ("Invalid capability profile: " ⧺ json_error provider.capability_profile))
      | some profile ↦ reply_to_insert db_text "Provider created successfully" rows (
          attempt fault (
            insert_provider provider.id (kind_text provider.kind) provider.endpoint none none none
              profile provider.allow_insecure_http rows))
    ]

    unfoldable pub update_provider :
        (fault : Option String) (id : String)
        → ProviderConfig
        → List ProviderRow
        → List ProviderRow × ApiResponse String
    update_provider fault id provider rows = elim (to_json provider.capability_profile) [
      | none ↦
          (rows, refused ("Invalid capability profile: " ⧺ json_error provider.capability_profile))
      | some profile ↦
          reply_to_change db_text "Provider updated successfully" "Provider not found" rows (
            attempt fault (done (update_rows provider_key (set_provider provider profile) id rows)))
    ]
