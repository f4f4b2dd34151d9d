-- ===== src/Dashboard/Versions/Races.antt =====
-- What goes wrong with the numbers: the largest version is read and the new row written in two
-- statements with no transaction, and a failure of the first is taken for an empty table.
use calude_proxy.Base.{
  ℕ, ◌+◌, ◌≤◌, ◌<◌, ◌≡◌, refl, ap, ◌∙◌, String, true, Option, none, some, List, [], ◌∷◌, ◌++◌,
  length, length-append, ltb, ◌==◌, if◌then◌else◌, arith, Option-cases, inl, inr,
}
use calude_proxy.Dashboard.{DbError, done, reply_to_query}
use calude_proxy.Dashboard.Tables.{ConfigVersion}
use calude_proxy.Dashboard.Versions.{
  i32_zero, i32_next, latest, find_version, get_config, get_version, insert_version,
  current_version, store_version, update_printed,
}
use calude_proxy.Dashboard.Versions.Numbered.{
  Numbered, texts, text_of, text_at, Numbered-append, texts-append, current_version-Numbered,
  i32_next_lem, latest-Numbered, find_version-Numbered,
}
use calude_proxy.Dashboard.Versions.Log.{first_version}
use calude_proxy.Dashboard.Versions.Shown.{shown_text, shown_text-reply}

newer : Option ConfigVersion → ConfigVersion → ConfigVersion
newer none row = row
newer (some best) row = if ltb best.version row.version then row else best

latest-append :
    (rows : List ConfigVersion) (row : ConfigVersion)
    → latest (rows ++ row ∷ []) ≡ some (newer (latest rows) row)
unfolding latest newer
latest-append [] row = refl
latest-append (other ∷ rest) row = elim (Option-cases (latest rest)) [
  | inl nothing ↦ ground (arith, latest-append rest row)
  | inr (best, e) ↦ ground (arith, latest-append rest row)
]

later_row : Option ConfigVersion → ℕ → ConfigVersion → Option ConfigVersion
later_row (some row) version last = some row
later_row none version last = if last.version == version then some last else none

find_version-append :
    (version : ℕ) (rows : List ConfigVersion) (last : ConfigVersion)
    → find_version version (rows ++ last ∷ []) ≡ later_row (find_version version rows) version last
unfolding find_version later_row
find_version-append version [] last = refl
find_version-append version (row ∷ rest) last =
    ground (arith, find_version-append version rest last)

-- A row whose number stands before it is found under none.
find_version_hidden :
    (version : ℕ) (rows : List ConfigVersion) (shown hidden : ConfigVersion)
    → shown.version ≡ hidden.version
    → find_version version ((rows ++ shown ∷ []) ++ hidden ∷ [])
      ≡ find_version version (rows ++ shown ∷ [])
unfolding later_row
find_version_hidden version rows shown hidden e =
    let outer = find_version-append version (rows ++ shown ∷ []) hidden in
    let inner = find_version-append version rows shown in
    elim (Option-cases (find_version version rows)) [
      | inl nothing ↦ ground (arith, outer, inner)
      | inr (row, found) ↦ ground (arith, outer, inner)
    ]

module _ (db_text : DbError → String) where
  -- When the largest version cannot be read, a configuration is stored as version 1 and the reply is
  -- a success; but where two or more versions are stored already, `get_config` shows what it
  -- showed before, and not the new configuration.
  pub update_unread :
      (rows : List ConfigVersion) (message yaml_error text now : String)
      → Numbered first_version rows
      → 2 ≤ length rows
      → ((update_printed db_text (some message) none yaml_error now (some text) rows).1.success
          ≡ true)
        × (get_config db_text none
              (update_printed db_text (some message) none yaml_error now (some text) rows).0
            ≡ get_config db_text none rows)
  unfolding update_printed store_version insert_version current_version get_config newer i32_next
  update_unread [] message yaml_error text now n two = absurd (omega arith)
  update_unread (row ∷ rest) message yaml_error text now n two =
      let (best, e, v, t) = latest-Numbered first_version row rest n in
      (
        refl,
        ap (λ found. reply_to_query db_text "No configuration found" (done found))
            (latest-append (row ∷ rest) _ ∙ rw (e, newer) (ground arith)),
      )

  -- Two updates that both read the largest version before either has written are both answered
  -- with success, but store their rows under one number: `get_version` then shows, under every
  -- number, what it would show if the second had not been made.
  pub update_race :
      (rows : List ConfigVersion) (text other now later message reply : String)
      → Numbered first_version rows
      → length rows < 2147483647
      → let version = i32_next (current_version none rows) in
        let first = store_version db_text none version text now message rows in
        let second = store_version db_text none version other later reply first.0 in
        (first.1.success ≡ true)
        × (second.1.success ≡ true)
        × (length second.0 ≡ length rows + 2)
        × ((v : ℕ)
            → shown_text (get_version db_text none v second.0)
              ≡ text_at first_version v (texts rows ++ text ∷ []))
  unfolding store_version insert_version get_version
  update_race rows text other now later message reply n small =
      let version = i32_next (current_version none rows) in
      let counted : version ≡ first_version + length rows =
        ap i32_next (current_version-Numbered rows n)
        ∙ i32_next_lem (i32_zero + length rows) (omega arith)
        ∙ omega arith in
      let first = insert_version version text "admin" now rows in
      (
        refl,
        refl,
        omega (arith, length-append first, length-append rows),
        λ v.
            shown_text-reply db_text _ _
            ∙ ap text_of (find_version_hidden v rows _ _ refl)
            ∙ find_version-Numbered first_version v first
                (Numbered-append first_version rows _ n counted)
            ∙ ap (text_at first_version v) (texts-append rows _),
      )
