-- ===== src/Dashboard/Tables/Keyed.antt =====
-- What a table with a key holds after a statement.
use calude_proxy.Base.{
  ◌≡◌, refl, String, Bool, true, false, Option, none, some, List, [], ◌∷◌, ◌++◌, ltb, ◌=?◌,
  if◌then◌else◌, eq_iff, arith, Bool-cases, inl, inr,
}
use calude_proxy.Dashboard.{DbError, done, reply_to_query, succeeded, refused}
use calude_proxy.Dashboard.Tables.{find_row, update_rows, delete_rows}

abbrev pub changed {ℓ} : {Row : Type ℓ} → (Row → Row) → Option Row → Option Row
changed change none = none
changed change (some row) = some (change row)

abbrev pub is_present {ℓ} : {Row : Type ℓ} → Option Row → Bool
is_present none = false
is_present (some row) = true

module _ {ℓ} {Row : Type ℓ} (key : Row → String) where
  pub find_row-append :
      (k : String) (rows : List Row) (row : Row)
      → find_row key (key row) rows ≡ none
      → find_row key k (rows ++ row ∷ []) ≡ (if key row =? k then some row else find_row key k rows)
  unfolding find_row
  find_row-append k [] row h = refl
  find_row-append k (other ∷ rest) row h = ground (
    arith,
    find_row-append k rest row,
    eq_iff (key other) (key row),
    eq_iff (key other) k,
    eq_iff (key row) k,
  )

  pub find_row-update_rows :
      (change : Row → Row) (id k : String) (rows : List Row)
      → ((row : Row) → key (change row) ≡ key row)
      → find_row key k (update_rows key change id rows).0
        ≡ (if id =? k then changed change (find_row key k rows) else find_row key k rows)
  unfolding find_row update_rows
  find_row-update_rows change id k [] kept = ground arith
  find_row-update_rows change id k (row ∷ rest) kept = ground (
    arith,
    find_row-update_rows change id k rest kept,
    kept row,
    eq_iff (key row) id,
    eq_iff (key row) k,
    eq_iff id k,
  )

  pub affected-update_rows :
      (change : Row → Row) (id : String) (rows : List Row)
      → ltb 0 (update_rows key change id rows).1 ≡ is_present (find_row key id rows)
  unfolding find_row update_rows
  affected-update_rows change id [] = refl
  affected-update_rows change id (row ∷ rest) = ground (arith, affected-update_rows change id rest)

  pub find_row-delete_rows :
      (id k : String) (rows : List Row)
      → find_row key k (delete_rows key id rows).0 ≡ (if id =? k then none else find_row key k rows)
  unfolding find_row delete_rows
  find_row-delete_rows id k [] = ground arith
  find_row-delete_rows id k (row ∷ rest) =
      ground (
        arith,
        find_row-delete_rows id k rest,
        eq_iff (key row) id,
        eq_iff (key row) k,
        eq_iff id k,
      )

  pub affected-delete_rows :
      (id : String) (rows : List Row)
      → ltb 0 (delete_rows key id rows).1 ≡ is_present (find_row key id rows)
  unfolding find_row delete_rows
  affected-delete_rows id [] = refl
  affected-delete_rows id (row ∷ rest) = ground (arith, affected-delete_rows id rest)

  pub find_row_key :
      (k : String) (rows : List Row) (row : Row) → find_row key k rows ≡ some row → key row ≡ k
  unfolding find_row
  find_row_key k [] row h = cc
  find_row_key k (other ∷ rest) row h = elim (Bool-cases (key other =? k)) [
    | inl hit ↦ let same : other ≡ row = ground arith in rw (← same) ((eq_iff (key other) k).0 hit)
    | inr miss ↦ find_row_key k rest row (ground arith)
  ]

-- What the replies show of an answer of the database.
pub content-reply_to_query {ℓ} :
    {T : Type ℓ} (db_text : DbError → String) (missing : String) (found : Option T)
    → (reply_to_query db_text missing (done found)).content ≡ found
content-reply_to_query db_text missing none = refl
content-reply_to_query db_text missing (some value) = refl

pub success-reply :
    (b : Bool) (message missing : String)
    → (if b then succeeded message else refused {T = String} missing).success ≡ b
success-reply true message missing = refl
success-reply false message missing = refl
