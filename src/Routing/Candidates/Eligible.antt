-- ===== src/Routing/Candidates/Eligible.antt =====
-- Which targets become candidates: those whose provider can serve the request and has no open
-- circuit.
use mathlib.Core.List.{append_assoc, append-nil, Perm}
use calude_proxy.Base.{
  ℕ, ◌+◌, ◌≤◌, ◌<◌, String, Bool, true, false, Option, none, some, List, [], ◌∷◌, ◌++◌,
  if◌then◌else◌, ◌≡◌, ◌≢◌, ◌⊎◌, inl, inr, refl, sym, ◌∙◌, All, arith, Bool-cases, eq_iff,
}
use calude_proxy.Error.{ProxyError, ErrorKind, Result, ok, err, new}
use calude_proxy.Json.{unwrap_or, lookup}
use calude_proxy.Domain.{NormalizedRequest}
use calude_proxy.Config.{TargetConfig}
use calude_proxy.Provider.{Provider}
use calude_proxy.Provider.Circuit.{available}
use calude_proxy.Routing.Circuits.{
  Circuits, update_lem, is_open, available-is_open, is_open-available,
}
use calude_proxy.Routing.Order.{Candidate}
use calude_proxy.Routing.Order.Sorted.{IsSorted, IsWeighted, weighted_priority_order_total}
use calude_proxy.Routing.Candidates.{
  Ready, Gathered, first_error, consider, gather, finish, candidates,
}

-- A target as a candidate, if it is one.
unfoldable pub as_candidate :
    (open_circuit : Bool)
    → Provider
    → TargetConfig
    → Result NormalizedRequest
    → List (Candidate Ready)
as_candidate open_circuit p target (err e) = []
as_candidate open_circuit p target (ok request) =
    if open_circuit
    then []
    else record { target = target; payload = record { provider = p; request = request } } ∷ []

abbrev refusal : Option ProxyError → Result NormalizedRequest → Option ProxyError
refusal first (ok request) = first
refusal first (err e) = first_error first e

consider_lem :
    (now : ℕ) (p : Provider) (target : TargetConfig) (adapted : Result NormalizedRequest)
    (g : Gathered)
    → ((consider now p target adapted g).compatible
        ≡ g.compatible ++ as_candidate (is_open now (g.circuits p.id)) p target adapted)
      × ((consider now p target adapted g).capability_error ≡ refusal g.capability_error adapted)
unfolding consider as_candidate
consider_lem now p target (err e) g = (sym (append-nil g.compatible), refl)
consider_lem now p target (ok request) g = elim (Bool-cases (is_open now (g.circuits p.id))) [
  | inl shut ↦ (
    ground (arith, available-is_open now (g.circuits p.id), append-nil g.compatible),
    ground arith,
  )
  | inr free ↦ (ground (arith, available-is_open now (g.circuits p.id)), ground arith)
]

circuits-consider :
    (now later : ℕ) (p : Provider) (target : TargetConfig) (adapted : Result NormalizedRequest)
    (g : Gathered) (id : String)
    → now ≤ later
    → is_open later ((consider now p target adapted g).circuits id) ≡ is_open later (g.circuits id)
unfolding consider
circuits-consider now later p target (err e) g id h = refl
circuits-consider now later p target (ok request) g id h = ground (
  arith,
  update_lem g.circuits p.id id (available now (g.circuits p.id)).0,
  is_open-available now later (g.circuits p.id) h,
  eq_iff p.id id,
)

-- What `finish` makes of the compatible targets.
finish_lem :
    (random : ℕ → ℕ → ℕ)
    → ((round total : ℕ) → 0 < total → random round total < total)
    → (g : Gathered) (compatible : List (Candidate Ready)) → g.compatible ≡ compatible
    → IsWeighted compatible
    → (result : Result (List (Candidate Ready))) × (finish random g ≡ some (g.circuits, result))
      × (((ordered : List (Candidate Ready)) × (compatible ≢ [])
            × (result ≡ ok ordered)
            × Perm ordered compatible
            × IsSorted ordered)
          ⊎ ((compatible ≡ [])
              × (result
                  ≡ err (
                      unwrap_or g.capability_error
                        (new ErrorKind.overloaded "all route targets have open circuits")))))
unfolding finish
finish_lem random in_range g [] e w = (
  err (
      unwrap_or g.capability_error
        (new ErrorKind.overloaded "all route targets have open circuits")),
  rw (e, finish) refl,
  inr (refl, refl),
)
finish_lem random in_range g (c ∷ rest) e w =
    let (ordered, r, sh, so) = weighted_priority_order_total random in_range (c ∷ rest) w in
    (ok ordered, rw (e, r, finish) refl, inl (ordered, (λ n. cc n), refl, sh, so))

module _ (providers : List (String × Provider)) (adapt : Provider → Result NormalizedRequest)
    (clock : ℕ → ℕ) where
  -- The specification: target by target, whether its provider is known, can serve the request, and
  -- has no open circuit at the instant at which it is asked.
  unfoldable pub eligible : ℕ → Circuits → List TargetConfig → List (Candidate Ready)
  eligible i circuits [] = []
  eligible i circuits (target ∷ rest) = elim (lookup target.provider providers) [
    | none ↦ eligible (i + 1) circuits rest
    | some p ↦
        as_candidate (is_open (clock i) (circuits p.id)) p target (adapt p)
        ++ eligible (i + 1) circuits rest
  ]

  -- The first capability error, in the order of the targets.
  pub first_refusal : Option ProxyError → List TargetConfig → Option ProxyError
  first_refusal first [] = first
  first_refusal first (target ∷ rest) = elim (lookup target.provider providers) [
    | none ↦ first_refusal first rest
    | some p ↦ first_refusal (refusal first (adapt p)) rest
  ]

  -- Every target names a configured provider, which `AppConfig::validate` sees to.
  abbrev pub IsKnown : TargetConfig → Type 0
  IsKnown target = (p : Provider) × (lookup target.provider providers ≡ some p)

  -- What the candidates are to be: the eligible targets in the order of their priorities, or an error
  -- if there are none.
  abbrev pub Answers : Circuits → List TargetConfig → Result (List (Candidate Ready)) → Type 0
  Answers circuits targets result =
      ((ordered : List (Candidate Ready)) × (eligible 0 circuits targets ≢ [])
        × (result ≡ ok ordered)
        × Perm ordered (eligible 0 circuits targets)
        × IsSorted ordered)
      ⊎ ((eligible 0 circuits targets ≡ [])
          × (result
              ≡ err (
                  unwrap_or (first_refusal none targets)
                    (new ErrorKind.overloaded "all route targets have open circuits"))))

  module _ (forward : (i : ℕ) → clock i ≤ clock (i + 1)) where
    gather_lem :
        (i : ℕ) (circuits : Circuits) (targets : List TargetConfig) (g : Gathered)
        → All IsKnown targets
        → ((id : String) (s : ℕ)
            → clock i ≤ s
            → is_open s (g.circuits id) ≡ is_open s (circuits id))
        → (g' : Gathered) × (gather providers adapt clock i targets g ≡ some g')
          × (g'.compatible ≡ g.compatible ++ eligible i circuits targets)
          × (g'.capability_error ≡ first_refusal g.capability_error targets)
    unfolding gather eligible first_refusal
    gather_lem i circuits [] g k same = (g, refl, sym (append-nil g.compatible), refl)
    gather_lem i circuits (target ∷ rest) g k same =
        let (p, known) = k.0 in
        let g1 = consider (clock i) p target (adapt p) g in
        let (kept, noted) = consider_lem (clock i) p target (adapt p) g in
        let (g', e, c, n) = gather_lem (i + 1) circuits rest g1 k.1 (λ id s h.
          circuits-consider (clock i) s p target (adapt p) g id (omega (arith, forward i, h))
          ∙ same id s (omega (arith, forward i, h))) in
        let here = same p.id (clock i) (omega arith) in
        (
          g',
          rw (known, gather) e,
          rw (known, eligible) (c ∙ rw (kept, here) (append_assoc g.compatible _ _)),
          rw (known, first_refusal) (n ∙ rw noted refl),
        )

    as_candidate-IsWeighted :
        (b : Bool) (p : Provider) (target : TargetConfig) (adapted : Result NormalizedRequest)
        (more : List (Candidate Ready))
        → 0 < target.weight
        → IsWeighted more
        → IsWeighted (as_candidate b p target adapted ++ more)
    unfolding as_candidate
    as_candidate-IsWeighted b p target (err e) more w m = m
    as_candidate-IsWeighted true p target (ok r) more w m = m
    as_candidate-IsWeighted false p target (ok r) more w m = (w, m)

    eligible-IsWeighted :
        (i : ℕ) (circuits : Circuits) (targets : List TargetConfig)
        → All IsKnown targets
        → All (λ t. 0 < t.weight) targets
        → IsWeighted (eligible i circuits targets)
    unfolding eligible
    eligible-IsWeighted i circuits [] k w = tt
    eligible-IsWeighted i circuits (t ∷ rest) k w =
        rw (k.0.1, eligible)
          (as_candidate-IsWeighted _ k.0.0 t _ _ w.0
            (eligible-IsWeighted (i + 1) circuits rest k.1 w.1))

    -- On a route whose targets all name a known provider and have a positive weight, with a clock
    -- that does not go back and a random source that stays below the total that it is given, the
    -- candidates are computed without a panic. If a target is eligible, the result is a
    -- rearrangement of the eligible targets in which no target stands behind one of a larger
    -- priority number. If none is, the result is the first capability error, and without one the
    -- error `overloaded`.
    pub candidates_lem :
        (random : ℕ → ℕ → ℕ)
        → ((round total : ℕ) → 0 < total → random round total < total)
        → (targets : List TargetConfig) (circuits : Circuits) → All IsKnown targets
        → All (λ t. 0 < t.weight) targets
        → (after : Circuits) × (result : Result (List (Candidate Ready))) × (candidates providers
              adapt clock random targets circuits
            ≡ some (after, result))
          × Answers circuits targets result
    unfolding candidates
    candidates_lem random in_range targets circuits k w =
        let (g, e, c, n) =
          gather_lem 0 circuits targets
            (record { circuits = circuits; compatible = []; capability_error = none }) k
            (λ id s h. refl) in
        let (result, f, q) =
          finish_lem random in_range g (eligible 0 circuits targets) c
            (eligible-IsWeighted 0 circuits targets k w) in
        (g.circuits, result, rw (e, candidates) f, rw n at q)
