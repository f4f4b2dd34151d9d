-- ===== src/Dashboard/Versions/Shown.antt =====
-- What the interface shows of the versions, and a log that may be added to.
use calude_proxy.Base.{
  suc, ◌+◌, ◌≤◌, ◌≡◌, refl, ap, String, Option, none, some, List, [], ◌∷◌, ◌++◌, length, arith,
  length-append,
}
use calude_proxy.Dashboard.{ApiResponse, DbError, done, reply_to_query}
use calude_proxy.Dashboard.Tables.{ConfigVersion}
use calude_proxy.Dashboard.Versions.Numbered.{texts, text_of}

-- The log after one more text, if there is one and the statement does not fail.
abbrev pub extended : (fault : Option String) → Option String → List String → List String
extended none (some text) log = log ++ text ∷ []
extended none none log = log
extended (some message) text log = log

pub length-extended :
    (fault : Option String) (text : Option String) (held : List String)
    → length (extended fault text held) ≤ length held + 1
length-extended none none held = omega arith
length-extended none (some text) held = omega (arith, length-append held (text ∷ []))
length-extended (some message) text held = omega arith

pub length-texts : (rows : List ConfigVersion) → length (texts rows) ≡ length rows
length-texts [] = refl
length-texts (row ∷ rest) = ap suc (length-texts rest)

-- What a reply shows of its versions.
abbrev pub shown_text : ApiResponse ConfigVersion → Option String
shown_text reply = text_of reply.content

abbrev pub shown_texts : ApiResponse (List ConfigVersion) → Option (List String)
shown_texts reply = elim reply.content [ none ↦ none | some rows ↦ some (texts rows) ]

pub shown_text-reply :
    (db_text : DbError → String) (missing : String) (found : Option ConfigVersion)
    → shown_text (reply_to_query db_text missing (done found)) ≡ text_of found
shown_text-reply db_text missing none = refl
shown_text-reply db_text missing (some row) = refl
