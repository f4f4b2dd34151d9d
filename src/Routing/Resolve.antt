-- ===== src/Routing/Resolve.antt =====
-- `Router::resolve` of src/routing.rs. `is_match` stands for the compiled glob set of a route: does
-- one of the patterns match the model?
pub mod Examples
use calude_proxy.Base.{
  String, Bool, true, false, ◌≡◌, ◌↔◌, refl, List, [], ◌∷◌, ◌++◌, ◌⧺◌, if◌then◌else◌, All, arith,
  Bool-cases, inl, inr, ap,
}
use calude_proxy.Error.{Result, ok, err, invalid}
use calude_proxy.Config.{TargetConfig}

-- `Route`, with the patterns that its glob set is compiled from.
pub record Route : Type 0 where
  pub id : String
  pub models : List String
  pub targets : List TargetConfig

module _ (is_match : List String → String → Bool) where
  -- `filter(…).collect()`.
  pub matching : String → List Route → List Route
  matching model [] = []
  matching model (r ∷ rest) =
      let others = matching model rest in if is_match r.models model then r ∷ others else others

  abbrev pub choose : String → List Route → Result Route
  choose model [] = err (invalid ("no route matches model " ⧺ model))
  choose model (r ∷ []) = ok r
  choose model (r ∷ s ∷ rest) =
      err (invalid ("multiple routes match model " ⧺ model ⧺ "; configuration is ambiguous"))

  pub resolve : List Route → String → Result Route
  resolve routes model = choose model (matching model routes)

  abbrev Misses : String → Route → Type 0
  Misses model r = is_match r.models model ≡ false

  -- `r` is the one route that matches.
  pub record Only (model : String) (routes : List Route) (r : Route) : Type 0 where
    pub before : List Route
    pub after : List Route
    pub placed : routes ≡ before ++ r ∷ after
    pub hit : is_match r.models model ≡ true
    pub missed_before : All (Misses model) before
    pub missed_after : All (Misses model) after

  matching-nil :
      (model : String) (routes : List Route)
      → matching model routes ≡ []
      → All (Misses model) routes
  unfolding matching
  matching-nil model [] h = tt
  matching-nil model (r ∷ rest) h = elim (Bool-cases (is_match r.models model)) [
    | inl hit ↦ absurd (ground arith)
    | inr miss ↦ (miss, matching-nil model rest (ground arith))
  ]

  nil-matching :
      (model : String) (routes : List Route)
      → All (Misses model) routes
      → matching model routes ≡ []
  unfolding matching
  nil-matching model [] h = refl
  nil-matching model (r ∷ rest) h = rw h.0 (nil-matching model rest h.1)

  matching-Only :
      (model : String) (routes : List Route) (r : Route)
      → matching model routes ≡ r ∷ []
      → Only model routes r
  unfolding matching
  matching-Only model [] r h = cc
  matching-Only model (s ∷ rest) r h = elim (Bool-cases (is_match s.models model)) [
    | inl hit ↦
        let e : s ≡ r = ground arith in
        let n : matching model rest ≡ [] = ground arith in
        rw (← e) (record {
          before = [];
          after = rest;
          placed = refl;
          hit = hit;
          missed_before = tt;
          missed_after = matching-nil model rest n;
        })
    | inr miss ↦
        let o = matching-Only model rest r (ground arith) in
        record {
          before = s ∷ o.before;
          after = o.after;
          placed = ap (◌∷◌ s) o.placed;
          hit = o.hit;
          missed_before = (miss, o.missed_before);
          missed_after = o.missed_after;
        }
  ]

  matching-append :
      (model : String) (before : List Route) (r : Route) (after : List Route)
      → All (Misses model) before
      → is_match r.models model ≡ true
      → All (Misses model) after
      → matching model (before ++ r ∷ after) ≡ r ∷ []
  unfolding matching
  matching-append model [] r after b h a = rw (h, nil-matching model after a)
  matching-append model (s ∷ before) r after b h a =
      rw b.0 (matching-append model before r after b.1 h a)

  choose_lem : (model : String) (rs : List Route) (r : Route) → choose model rs ≡ ok r → rs ≡ r ∷ []
  choose_lem model [] r h = cc
  choose_lem model (s ∷ []) r h = cc
  choose_lem model (s ∷ t ∷ rest) r h = cc

  -- A route is resolved exactly if it matches the model and no other entry of the list does.
  pub resolve_iff :
      (routes : List Route) (model : String) (r : Route)
      → (resolve routes model ≡ ok r) ↔ Only model routes r
  unfolding resolve
  resolve_iff routes model r = (
    λ h. matching-Only model routes r (choose_lem model (matching model routes) r h),
    λ o.
        rw
          (o.placed, matching-append model o.before r o.after o.missed_before o.hit o.missed_after),
  )
