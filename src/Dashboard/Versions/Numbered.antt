-- ===== src/Dashboard/Versions/Numbered.antt =====
-- Rows whose versions count up by one in the order in which they were entered.
use calude_proxy.Base.{
  ℕ, ◌+◌, ◌≤◌, ◌<◌, ◌≡◌, refl, ap, ◌∙◌, String, Option, none, some, List, [], ◌∷◌, ◌++◌, map,
  length, All, All-append, All-map, ◌==◌, if◌then◌else◌, arith,
}
use calude_proxy.Dashboard.Tables.{ConfigVersion}
use calude_proxy.Dashboard.Versions.{
  i32_zero, i32_next, max_version, latest, insert_descending, descending, find_version,
  current_version,
}

unfoldable pub Numbered : ℕ → List ConfigVersion → Type 0
Numbered k [] = Unit {0}
Numbered k (row ∷ rest) = (row.version ≡ k) × Numbered (k + 1) rest

-- The texts in the order of their entry; the last of a list; the one at a number, from `k` on.
abbrev pub texts : List ConfigVersion → List String
texts rows = map (λ row. row.config_data) rows

abbrev pub last_text : List String → Option String
last_text [] = none
last_text (t ∷ []) = some t
last_text (t ∷ u ∷ rest) = last_text (u ∷ rest)

pub text_at : (k v : ℕ) → List String → Option String
text_at k v [] = none
text_at k v (t ∷ rest) = let later = text_at (k + 1) v rest in if k == v then some t else later

abbrev pub text_of : Option ConfigVersion → Option String
text_of none = none
text_of (some row) = some row.config_data

pub Numbered-append :
    (k : ℕ) (rows : List ConfigVersion) (row : ConfigVersion)
    → Numbered k rows
    → row.version ≡ k + length rows
    → Numbered k (rows ++ row ∷ [])
unfolding Numbered
Numbered-append k [] row n e = (omega arith, tt)
Numbered-append k (r ∷ rest) row n e = (n.0, Numbered-append (k + 1) rest row n.1 (omega arith))

pub texts-append :
    (rows : List ConfigVersion) (row : ConfigVersion)
    → texts (rows ++ row ∷ []) ≡ texts rows ++ row.config_data ∷ []
texts-append [] row = refl
texts-append (r ∷ rest) row = ap (◌∷◌ r.config_data) (texts-append rest row)

pub max_version-Numbered :
    (k : ℕ) (row : ConfigVersion) (rest : List ConfigVersion)
    → Numbered k (row ∷ rest)
    → max_version (row ∷ rest) ≡ some (k + length rest)
unfolding Numbered max_version
max_version-Numbered k row [] n = ap some (omega arith)
max_version-Numbered k row (s ∷ rest) n = ground (arith, max_version-Numbered (k + 1) s rest n.1)

-- The next number after rows that count from 1.
pub current_version-Numbered :
    (rows : List ConfigVersion)
    → Numbered (i32_zero + 1) rows
    → current_version none rows ≡ i32_zero + length rows
unfolding current_version max_version
current_version-Numbered [] n = refl
current_version-Numbered (row ∷ rest) n =
    rw (max_version-Numbered (i32_zero + 1) row rest n) (omega arith)

pub i32_next_lem : (v : ℕ) → v < 4294967295 → i32_next v ≡ v + 1
unfolding i32_next
i32_next_lem v h = omega arith

pub latest-Numbered :
    (k : ℕ) (row : ConfigVersion) (rest : List ConfigVersion)
    → Numbered k (row ∷ rest)
    → (best : ConfigVersion) × (latest (row ∷ rest) ≡ some best)
      × (best.version ≡ k + length rest)
      × (some best.config_data ≡ last_text (texts (row ∷ rest)))
unfolding Numbered latest
latest-Numbered k row [] n = (row, refl, omega arith, refl)
latest-Numbered k row (s ∷ rest) n =
    let (best, e, v, t) = latest-Numbered (k + 1) s rest n.1 in (best, ground arith, omega arith, t)

pub find_version-Numbered :
    (k v : ℕ) (rows : List ConfigVersion)
    → Numbered k rows
    → text_of (find_version v rows) ≡ text_at k v (texts rows)
unfolding Numbered find_version text_at
find_version-Numbered k v [] n = refl
find_version-Numbered k v (row ∷ rest) n = ground (arith, find_version-Numbered (k + 1) v rest n.1)

-- The list in the opposite order.
pub backwards {ℓ} : {A : Type ℓ} → List A → List A
backwards [] = []
backwards (x ∷ rest) = backwards rest ++ x ∷ []

insert_descending_last :
    (row : ConfigVersion) (rows : List ConfigVersion)
    → All (λ other. row.version < other.version) rows
    → insert_descending row rows ≡ rows ++ row ∷ []
unfolding insert_descending
insert_descending_last row [] h = refl
insert_descending_last row (other ∷ rest) h = ground (arith, insert_descending_last row rest h.1)

backwards-All :
    (k : ℕ) (rows : List ConfigVersion)
    → Numbered k rows
    → All (λ row. k ≤ row.version) (backwards rows)
unfolding Numbered backwards
backwards-All k [] n = tt
backwards-All k (row ∷ rest) n =
    All-append (λ r. k ≤ r.version) (backwards rest) (row ∷ [])
      (All-map (λ r. k + 1 ≤ r.version) (λ r. k ≤ r.version) (λ r h. omega arith) (backwards rest)
        (backwards-All (k + 1) rest n.1))
      (omega arith, tt)

pub descending-Numbered :
    (k : ℕ) (rows : List ConfigVersion) → Numbered k rows → descending rows ≡ backwards rows
unfolding Numbered descending backwards
descending-Numbered k [] n = refl
descending-Numbered k (row ∷ rest) n = rw (descending-Numbered (k + 1) rest n.1) (
    insert_descending_last row (backwards rest) (
      All-map (λ r. k + 1 ≤ r.version) (λ r. row.version < r.version) (λ r h. omega arith)
        (backwards rest) (backwards-All (k + 1) rest n.1)))

pub texts-backwards : (rows : List ConfigVersion) → texts (backwards rows) ≡ backwards (texts rows)
unfolding backwards
texts-backwards [] = refl
texts-backwards (row ∷ rest) =
    texts-append (backwards rest) row ∙ ap (λ ts. ts ++ row.config_data ∷ []) (texts-backwards rest)
