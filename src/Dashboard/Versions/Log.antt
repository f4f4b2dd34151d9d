-- ===== src/Dashboard/Versions/Log.antt =====
-- The versions as a log of texts: what the history of saved and reverted configurations leaves.
use calude_proxy.Base.{
  ℕ, ◌+◌, ◌≤◌, ◌<◌, ◌≡◌, refl, ap, subst, ◌∙◌, String, Option, none, some, List, [], ◌∷◌, ◌++◌,
  length, arith,
}
use calude_proxy.Error.{ProxyError, Result, ok, err}
use calude_proxy.Json.{Value}
use calude_proxy.Config.{AppConfig}
use calude_proxy.Dashboard.{DbError, done}
use calude_proxy.Dashboard.Tables.{ConfigVersion}
use calude_proxy.Dashboard.Versions.{
  i32_zero, i32_next, latest, find_version, get_config, get_version, list_versions, insert_version,
  current_version, store_version, update_printed, update_loaded, update_config, revert_found,
  revert_version,
}
use calude_proxy.Dashboard.Versions.Shown.{
  extended, length-extended, length-texts, shown_text, shown_texts, shown_text-reply,
}
use calude_proxy.Dashboard.Versions.Numbered.{
  Numbered, texts, text_of, text_at, last_text, backwards, Numbered-append, texts-append,
  current_version-Numbered, i32_next_lem, latest-Numbered, find_version-Numbered,
  descending-Numbered, texts-backwards,
}

-- The requests that save something, each with the faults of its statements but for the reading of
-- the largest version, which does not fail here.
pub data Save : Type 0 where
  updated : (payload : Value) (now : String) (write_fault : Option String) → Save
  reverted : (version : ℕ) (now : String) (find_fault write_fault : Option String) → Save

abbrev pub first_version : ℕ
first_version = i32_zero + 1

module _ (db_text : DbError → String) (error_text : ProxyError → String)
    (load_from_value : Value → Result AppConfig) (to_yaml : AppConfig → Option String)
    (yaml_error : AppConfig → String) where
  pub save : Save → List ConfigVersion → List ConfigVersion
  save (updated payload now write_fault) rows =
      (update_config db_text error_text to_yaml yaml_error load_from_value none write_fault now
        payload rows).0
  save (reverted version now find_fault write_fault) rows =
      (revert_version db_text find_fault none write_fault now version rows).0

  -- The oldest request stands last.
  pub saves : List Save → List ConfigVersion
  saves [] = []
  saves (request ∷ earlier) = save request (saves earlier)

  -- The text that a payload is stored as.
  abbrev pub printed : Result AppConfig → Option String
  printed (err e) = none
  printed (ok config) = to_yaml config

  -- The specification: a log of texts that is only added to.
  pub log : List Save → List String
  log [] = []
  log (updated payload now write_fault ∷ earlier) =
      extended write_fault (printed (load_from_value payload)) (log earlier)
  log (reverted version now none write_fault ∷ earlier) =
      let before = log earlier in extended write_fault (text_at first_version version before) before
  log (reverted version now (some message) write_fault ∷ earlier) = log earlier

  -- The rows hold the texts of a log under the numbers 1, 2, 3 and so on.
  pub record Holds (texts_held : List String) (rows : List ConfigVersion) : Type 0 where
    pub numbered : Numbered first_version rows
    pub same_texts : texts rows ≡ texts_held

  Holds-insert :
      (text now : String) (texts_held : List String) (rows : List ConfigVersion)
      → length rows < 2147483647
      → Holds texts_held rows
      → Holds
          (texts_held ++ text ∷ [])
          (insert_version (i32_next (current_version none rows)) text "admin" now rows)
  unfolding insert_version
  Holds-insert text now held rows small h =
      let counted = current_version-Numbered rows h.numbered in
      record {
        numbered =
            Numbered-append first_version rows _ h.numbered
              (rw counted (i32_next_lem (i32_zero + length rows) (omega arith) ∙ omega arith));
        same_texts = texts-append rows _ ∙ ap (λ ts. ts ++ text ∷ []) h.same_texts;
      }

  Holds-store :
      (fault : Option String) (text now message : String) (held : List String)
      (rows : List ConfigVersion)
      → length rows < 2147483647
      → Holds held rows
      → Holds
          (extended fault (some text) held)
          (store_version db_text fault
            (i32_next (current_version none rows))
            text
            now
            message
            rows).0
  unfolding store_version
  Holds-store none text now message held rows small h = Holds-insert text now held rows small h
  Holds-store (some e) text now message held rows small h = h

  extended-none : (fault : Option String) (held : List String) → extended fault none held ≡ held
  extended-none none held = refl
  extended-none (some e) held = refl

  Holds-update_printed :
      (fault : Option String) (message now : String) (text : Option String) (held : List String)
      (rows : List ConfigVersion)
      → length rows < 2147483647
      → Holds held rows
      → Holds (extended fault text held) (update_printed db_text none fault message now text rows).0
  unfolding update_printed
  Holds-update_printed fault message now none held rows small h = rw extended-none h
  Holds-update_printed fault message now (some text) held rows small h =
      Holds-store fault text now _ held rows small h

  Holds-update_loaded :
      (fault : Option String) (now : String) (answer : Result AppConfig) (held : List String)
      (rows : List ConfigVersion)
      → length rows < 2147483647
      → Holds held rows
      → Holds
          (extended fault (printed answer) held)
          (update_loaded db_text error_text to_yaml yaml_error none fault now answer rows).0
  unfolding update_loaded
  Holds-update_loaded fault now (err e) held rows small h = rw extended-none h
  Holds-update_loaded fault now (ok config) held rows small h =
      Holds-update_printed fault _ now (to_yaml config) held rows small h

  Holds-revert_found :
      (fault : Option String) (now : String) (version : ℕ) (found : Option ConfigVersion)
      (held : List String) (rows : List ConfigVersion)
      → length rows < 2147483647
      → Holds held rows
      → Holds
          (extended fault (text_of found) held)
          (revert_found db_text none fault now version (done found) rows).0
  unfolding revert_found
  Holds-revert_found fault now version none held rows small h = rw extended-none h
  Holds-revert_found fault now version (some row) held rows small h =
      Holds-store fault row.config_data now _ held rows small h

  save-Holds :
      (request : Save) (earlier : List Save) (rows : List ConfigVersion)
      → length rows < 2147483647
      → Holds (log earlier) rows
      → Holds (log (request ∷ earlier)) (save request rows)
  unfolding save log update_config revert_version
  save-Holds (updated payload now fault) earlier rows small h =
      Holds-update_loaded fault now (load_from_value payload) (log earlier) rows small h
  save-Holds (reverted version now (some message) fault) earlier rows small h =
      unfold revert_found in h
  save-Holds (reverted version now none fault) earlier rows small h =
      subst
        (λ text.
          Holds (extended fault text (log earlier)) (save (reverted version now none fault) rows))
        (find_version-Numbered first_version version rows h.numbered
          ∙ ap (text_at first_version version) h.same_texts)
        (Holds-revert_found fault now version (find_version version rows) (log earlier) rows small
          h)

  length-log : (requests : List Save) → length (log requests) ≤ length requests
  unfolding log
  length-log [] = omega arith
  length-log (updated payload now fault ∷ earlier) = omega (
    arith,
    length-extended fault (printed (load_from_value payload)) (log earlier),
    length-log earlier,
  )
  length-log (reverted version now none fault ∷ earlier) = omega (
    arith,
    length-extended fault (text_at first_version version (log earlier)) (log earlier),
    length-log earlier,
  )
  length-log (reverted version now (some message) fault ∷ earlier) =
      omega (arith, length-log earlier)

  saves-Holds :
      (requests : List Save) → length requests < 2147483648 → Holds (log requests) (saves requests)
  unfolding saves log Numbered
  saves-Holds [] small = record { numbered = tt; same_texts = refl }
  saves-Holds (request ∷ earlier) small =
      let before = saves-Holds earlier (omega arith) in
      let counted = ap length before.same_texts in
      save-Holds request earlier (saves earlier)
        (omega (arith, counted, length-texts (saves earlier), length-log earlier)) before

  last_text-latest :
      (rows : List ConfigVersion)
      → Numbered first_version rows
      → text_of (latest rows) ≡ last_text (texts rows)
  unfolding latest
  last_text-latest [] n = refl
  last_text-latest (row ∷ rest) n =
      let (best, e, v, t) = latest-Numbered first_version row rest n in rw e t

  -- After any history of fewer than 2^31 requests to update or to revert, whichever of their
  -- statements fail but for the one that reads the largest version: `get_config` shows the text that
  -- was saved last, `get_version` shows the k-th text under the number k and none under any other,
  -- and `list_versions` shows all texts, the newest first. A request adds the text of its
  -- configuration, or of the version that it reverts to; it adds none if its configuration is
  -- refused, its version unknown, or one of its statements fails.
  pub saves_lem :
      (requests : List Save)
      → length requests < 2147483648
      → (shown_text (get_config db_text none (saves requests)) ≡ last_text (log requests))
        × ((version : ℕ)
            → shown_text (get_version db_text none version (saves requests))
              ≡ text_at first_version version (log requests))
        × (shown_texts (list_versions db_text none (saves requests))
            ≡ some (backwards (log requests)))
  unfolding get_config get_version list_versions
  saves_lem requests small =
      let held = saves-Holds requests small in
      (
        shown_text-reply db_text _ (latest (saves requests))
            ∙ last_text-latest (saves requests) held.numbered
            ∙ ap last_text held.same_texts,
        λ version.
            shown_text-reply db_text _ (find_version version (saves requests))
            ∙ find_version-Numbered first_version version (saves requests) held.numbered
            ∙ ap (text_at first_version version) held.same_texts,
        ap some (
            ap texts (descending-Numbered first_version (saves requests) held.numbered)
            ∙ texts-backwards (saves requests)
            ∙ ap backwards held.same_texts),
      )
