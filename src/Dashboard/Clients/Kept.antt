-- ===== src/Dashboard/Clients/Kept.antt =====
-- What the interface shows of a client after a change.
use calude_proxy.Base.{
  ◌≡◌, refl, ap, sym, ◌∙◌, String, Option, none, some, List, All, ◌=?◌, if◌then◌else◌, Bool-cases,
  Option-cases, inl, inr, eq_iff,
}
use calude_proxy.Config.{ClientConfig}
use calude_proxy.Dashboard.{DbError}
use calude_proxy.Dashboard.Tables.{ClientRow, find_row}
use calude_proxy.Dashboard.Tables.Keyed.{
  changed, is_present, find_row-update_rows, affected-update_rows, find_row_key,
  content-reply_to_query, success-reply,
}
use calude_proxy.Dashboard.Text.RoundTrip.{IsEntry, split_comma_separated-join}
use calude_proxy.Dashboard.Clients.{
  DbClient, client_key, row_to_client, shown_client, set_client, get_client, update_client,
}

-- What is shown of a client with these settings.
pub as_shown : (id : String) → ClientConfig → DbClient
as_shown id client = record {
  id = id;
  allowed_routes = client.allowed_routes;
  requests_per_minute = client.requests_per_minute;
  concurrent_requests = client.concurrent_requests;
}

shown-set_client :
    (client : ClientConfig) (id : String) (row : ClientRow)
    → All IsEntry client.allowed_routes
    → row.client_id ≡ id
    → row_to_client (set_client client row) ≡ as_shown id client
unfolding row_to_client as_shown
shown-set_client client id row clean e =
    cc (e, split_comma_separated-join client.allowed_routes clean)

is_present-shown : (found : Option ClientRow) → is_present (shown_client found) ≡ is_present found
is_present-shown none = refl
is_present-shown (some row) = refl

shown-changed :
    (id : String) (client : ClientConfig) (rows : List ClientRow)
    → All IsEntry client.allowed_routes
    → shown_client (changed (set_client client) (find_row client_key id rows))
      ≡ changed (λ shown. as_shown id client) (shown_client (find_row client_key id rows))
shown-changed id client rows clean = elim (Option-cases (find_row client_key id rows)) [
  | inl missing ↦ rw missing refl
  | inr (row, found) ↦
      rw found
        (ap some (shown-set_client client id row clean (find_row_key client_key id rows row found)))
]

module _ (db_text : DbError → String) where
  -- What `get_client` shows, `none` if it refuses.
  abbrev pub client_at : String → List ClientRow → Option DbClient
  client_at id rows = (get_client db_text none id rows).content

  client_at_lem :
      (id : String) (rows : List ClientRow)
      → client_at id rows ≡ shown_client (find_row client_key id rows)
  unfolding get_client
  client_at_lem id rows =
      content-reply_to_query db_text _ (shown_client (find_row client_key id rows))

  -- Where the database does not fail and the allowed routes are names without commas and space
  -- around them, `update_client` succeeds exactly on a client that there is; that client is then
  -- shown with the settings that were sent, its list of routes read back from the column as it was
  -- sent, and every other client as before. With no such client nothing changes.
  pub client_at-update_client :
      (id other : String) (client : ClientConfig) (rows : List ClientRow)
      → All IsEntry client.allowed_routes
      → ((update_client db_text none id client rows).1.success ≡ is_present (client_at id rows))
        × (client_at other (update_client db_text none id client rows).0 ≡ (
            if id =? other
            then changed (λ shown. as_shown id client) (client_at other rows)
            else client_at other rows))
  unfolding update_client
  client_at-update_client id other client rows clean =
      let seen = client_at_lem id rows in
      (
        success-reply _ _ _
            ∙ affected-update_rows client_key (set_client client) id rows
            ∙ sym (is_present-shown (find_row client_key id rows))
            ∙ ap is_present (sym seen),
        client_at_lem other _
            ∙ ap shown_client
                (find_row-update_rows client_key (set_client client) id other rows (λ row. refl))
            ∙ elim (Bool-cases (id =? other)) [
              | inl hit ↦
                  let same = (eq_iff id other).0 hit in
                  rw (hit, client_at_lem other rows, ← same) (shown-changed id client rows clean)
              | inr miss ↦ rw miss (sym (client_at_lem other rows))
            ],
      )
