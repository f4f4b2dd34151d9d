-- ===== src/Dashboard/Clients.antt =====
-- The clients of src/dashboard.rs: `list_clients`, `create_client`, `get_client`, `update_client` and
-- `delete_client`. The rows are read in the order of their entry.
pub mod Kept
use calude_proxy.Base.{ℕ, String, Option, none, some, List, map, join, ◌⧺◌}
use calude_proxy.Config.{ClientConfig}
use calude_proxy.Dashboard.{
  ApiResponse, DbError, Answer, done, failed, attempt, reply_to_query, reply_to_list,
  reply_to_insert, reply_to_change,
}
use calude_proxy.Dashboard.Tables.{
  ClientRow, find_row, insert_row, update_rows, delete_rows, not_null,
}
use calude_proxy.Dashboard.Text.{split_comma_separated}

pub record DbClient : Type 0 where
  pub id : String
  pub allowed_routes : List String
  pub requests_per_minute : ℕ
  pub concurrent_requests : ℕ

abbrev pub client_key : ClientRow → String
client_key row = row.client_id

unfoldable pub row_to_client : ClientRow → DbClient
row_to_client row = record {
  id = row.client_id;
  allowed_routes = split_comma_separated row.allowed_routes;
  requests_per_minute = row.requests_per_minute;
  concurrent_requests = row.concurrent_requests;
}

abbrev pub shown_client : Option ClientRow → Option DbClient
shown_client none = none
shown_client (some row) = some (row_to_client row)

-- An `INSERT INTO clients` that may leave out the hash of the key and its salt.
unfoldable pub insert_client :
    (client_id : String) (key_hash key_salt : Option String) (allowed_routes : String)
    (requests_per_minute concurrent_requests : ℕ)
    → List ClientRow
    → Answer (List ClientRow)
insert_client client_id key_hash key_salt allowed_routes rpm concurrent rows =
    not_null "clients.key_hash" key_hash (λ given_hash.
      not_null "clients.key_salt" key_salt (λ given_salt.
        insert_row client_key "clients.client_id"
          (record {
            client_id = client_id;
            key_hash = given_hash;
            key_salt = given_salt;
            allowed_routes = allowed_routes;
            requests_per_minute = rpm;
            concurrent_requests = concurrent;
          })
          rows))

-- What the `SET` clause writes.
abbrev pub set_client : ClientConfig → ClientRow → ClientRow
set_client client row = record row {
  allowed_routes = join "," client.allowed_routes;
  requests_per_minute = client.requests_per_minute;
  concurrent_requests = client.concurrent_requests;
}

module _ (db_text : DbError → String) where
  unfoldable pub list_clients :
      (fault : Option String) → List ClientRow → ApiResponse (List DbClient)
  list_clients fault rows = reply_to_list db_text (attempt fault (done (map row_to_client rows)))

  unfoldable pub create_client :
      (fault : Option String) → ClientConfig → List ClientRow → List ClientRow × ApiResponse String
  create_client fault client rows = reply_to_insert db_text "Client created successfully" rows (
      attempt fault (
        insert_client client.id none none (join "," client.allowed_routes)
          client.requests_per_minute client.concurrent_requests rows))

  unfoldable pub get_client :
      (fault : Option String) → String → List ClientRow → ApiResponse DbClient
  get_client fault id rows =
      reply_to_query db_text "Client not found"
        (attempt fault (done (shown_client (find_row client_key id rows))))

  unfoldable pub update_client :
      (fault : Option String) (id : String)
      → ClientConfig
      → List ClientRow
      → List ClientRow × ApiResponse String
  update_client fault id client rows =
      reply_to_change db_text "Client updated successfully" "Client not found" rows
        (attempt fault (done (update_rows client_key (set_client client) id rows)))

  unfoldable pub delete_client :
      (fault : Option String) → String → List ClientRow → List ClientRow × ApiResponse String
  delete_client fault id rows =
      reply_to_change db_text "Client deleted successfully" "Client not found" rows
        (attempt fault (done (delete_rows client_key id rows)))
