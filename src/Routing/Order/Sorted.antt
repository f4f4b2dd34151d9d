-- ===== src/Routing/Order/Sorted.antt =====
-- The order of the targets: nothing lost, nothing made up, and no lower tier before a higher one.
use mathlib.Core.List.{Perm}
use mathlib.Core.List.Perm
use calude_proxy.Base.{
  ℕ, zero, suc, ◌+◌, ◌≤◌, ◌<◌, ◌≡◌, refl, ap, some, List, [], ◌∷◌, length, take, leb, ◌==◌, arith,
  Bool-cases, inl, inr, All,
}
use calude_proxy.Routing.Order.{
  Candidate, insert, sort, tier_len, total_weight, select, remove, random_range, pick, draw,
  weighted_priority_order,
}
use calude_proxy.Routing.Order.Select.{select_lt}

module _ {ℓ} {P : Type ℓ} where
  abbrev pub IsSorted : List (Candidate P) → Type 0
  IsSorted [] = Unit
  IsSorted (c ∷ rest) = All (λ d. c.target.priority ≤ d.target.priority) rest × IsSorted rest

  insert-All {κ} :
      (Q : Candidate P → Type κ) (c : Candidate P) (cs : List (Candidate P))
      → Q c
      → All Q cs
      → All Q (insert c cs)
  unfolding insert
  insert-All Q c [] q h = (q, h)
  insert-All Q c (d ∷ rest) q h = elim (Bool-cases (leb c.target.priority d.target.priority)) [
    | inl le ↦ rw (le, insert) (q, h)
    | inr gt ↦ rw (gt, insert) (h.0, insert-All Q c rest q h.1)
  ]

  All-le :
      (m n : ℕ) (cs : List (Candidate P))
      → m ≤ n
      → All (λ d. n ≤ d.target.priority) cs
      → All (λ d. m ≤ d.target.priority) cs
  All-le m n [] h a = tt
  All-le m n (c ∷ rest) h a = (omega arith, All-le m n rest h a.1)

  insert-IsSorted :
      (c : Candidate P) (cs : List (Candidate P)) → IsSorted cs → IsSorted (insert c cs)
  unfolding insert
  insert-IsSorted c [] s = (tt, tt)
  insert-IsSorted c (d ∷ rest) s = elim (Bool-cases (leb c.target.priority d.target.priority)) [
    | inl le ↦
        rw (le, insert)
          ((ground arith, All-le c.target.priority d.target.priority rest (ground arith) s.0), s)
    | inr gt ↦
        rw (gt, insert)
          (
            insert-All (λ e. d.target.priority ≤ e.target.priority) c rest (ground arith) s.0,
            insert-IsSorted c rest s.1,
          )
  ]

  insert-perm : (c : Candidate P) (cs : List (Candidate P)) → Perm (insert c cs) (c ∷ cs)
  unfolding insert
  insert-perm c [] = Perm.rfl
  insert-perm c (d ∷ rest) = elim (Bool-cases (leb c.target.priority d.target.priority)) [
    | inl le ↦ rw (le, insert) Perm.rfl
    | inr gt ↦ rw (gt, insert) (Perm.trans (Perm.cons d (insert-perm c rest)) (Perm.swap c d rest))
  ]

  sort-IsSorted : (cs : List (Candidate P)) → IsSorted (sort cs)
  unfolding sort
  sort-IsSorted [] = tt
  sort-IsSorted (c ∷ rest) = insert-IsSorted c (sort rest) (sort-IsSorted rest)

  sort-perm : (cs : List (Candidate P)) → Perm (sort cs) cs
  unfolding sort
  sort-perm [] = Perm.rfl
  sort-perm (c ∷ rest) = Perm.trans (insert-perm c (sort rest)) (Perm.cons c (sort-perm rest))

  sort-All {κ} : (Q : Candidate P → Type κ) (cs : List (Candidate P)) → All Q cs → All Q (sort cs)
  unfolding sort
  sort-All Q [] h = tt
  sort-All Q (c ∷ rest) h = insert-All Q c (sort rest) h.0 (sort-All Q rest h.1)

  -- `others` is `cs` without the candidate `d`.
  data Without : List (Candidate P) → Candidate P → List (Candidate P) → Type ℓ where
    here : (c : Candidate P) (rest : List (Candidate P)) → Without (c ∷ rest) c rest
    there :
        (c : Candidate P) {d : Candidate P} {rest others : List (Candidate P)}
        → Without rest d others
        → Without (c ∷ rest) d (c ∷ others)

  Without-All {κ} :
      (Q : Candidate P → Type κ) {cs : List (Candidate P)} {d : Candidate P}
      {others : List (Candidate P)}
      → Without cs d others
      → All Q cs
      → Q d × All Q others
  Without-All Q (here c rest) h = h
  Without-All Q (there c w) h = let (q, a) = Without-All Q w h.1 in (q, (h.0, a))

  Without-perm :
      {cs : List (Candidate P)} {d : Candidate P} {others : List (Candidate P)}
      → Without cs d others
      → Perm (d ∷ others) cs
  Without-perm (here c rest) = Perm.rfl
  Without-perm (there c {d = d} {others = others} w) =
      Perm.trans (Perm.swap c d others) (Perm.cons c (Without-perm w))

  Without-IsSorted :
      {cs : List (Candidate P)} {d : Candidate P} {others : List (Candidate P)}
      → Without cs d others
      → IsSorted cs
      → IsSorted others
  Without-IsSorted (here c rest) s = s.1
  Without-IsSorted (there c w) s =
      ((Without-All (λ d. c.target.priority ≤ d.target.priority) w s.0).1, Without-IsSorted w s.1)

  Without-length :
      {cs : List (Candidate P)} {d : Candidate P} {others : List (Candidate P)}
      → Without cs d others
      → length cs ≡ suc (length others)
  Without-length (here c rest) = refl
  Without-length (there c w) = ap suc (Without-length w)

  -- `remove` within the first tier takes out one candidate of its priority.
  remove-Without :
      (priority i : ℕ) (cs : List (Candidate P))
      → i < length (take (tier_len priority cs) cs)
      → (d : Candidate P) × (others : List (Candidate P)) × (remove i cs ≡ some (d, others))
        × Without cs d others
        × (d.target.priority ≡ priority)
  unfolding remove tier_len
  remove-Without priority i [] h = elim h [ ]
  remove-Without priority zero (c ∷ rest) h = elim (Bool-cases (c.target.priority == priority)) [
    | inr other ↦ absurd (ground arith)
    | inl same ↦ (c, rest, refl, here c rest, ground arith)
  ]
  remove-Without priority (suc i) (c ∷ rest) h = elim (Bool-cases (c.target.priority == priority)) [
    | inr other ↦ absurd (ground arith)
    | inl same ↦
        let (d, others, e, w, p) = remove-Without priority i rest (ground arith) in
        (d, c ∷ others, rw (e, remove), there c w, p)
  ]

  abbrev pub IsWeighted : List (Candidate P) → Type 0
  IsWeighted cs = All (λ c. 0 < c.target.weight) cs

  total_weight_pos :
      (c : Candidate P) (rest : List (Candidate P))
      → IsWeighted (c ∷ rest)
      → 0 < total_weight (take (tier_len c.target.priority (c ∷ rest)) (c ∷ rest))
  unfolding tier_len total_weight
  total_weight_pos c rest w = ground arith

  module _ (random : ℕ → ℕ → ℕ)
      (in_range : (round total : ℕ) → 0 < total → random round total < total) where
    pick-Without :
        (round : ℕ) (c : Candidate P) (rest : List (Candidate P))
        → IsWeighted (c ∷ rest)
        → (d : Candidate P) × (others : List (Candidate P)) × (pick random round c.target.priority
              (c ∷ rest)
            ≡ some (d, others))
          × Without (c ∷ rest) d others
          × (d.target.priority ≡ c.target.priority)
    unfolding pick
    pick-Without round c rest w =
        let tier = take (tier_len c.target.priority (c ∷ rest)) (c ∷ rest) in
        let pos : 0 < total_weight tier = total_weight_pos c rest w in
        let draws : random_range random round (total_weight tier)
            ≡ some (random round (total_weight tier)) =
          ground arith in
        let (d, others, e, wo, p) =
          remove-Without c.target.priority (select (random round (total_weight tier)) tier)
            (c ∷ rest)
            (select_lt (random round (total_weight tier)) tier
              (in_range round (total_weight tier) pos)) in
        (d, others, rw draws e, wo, p)

    draw-Ordered :
        (fuel round : ℕ) (cs : List (Candidate P))
        → length cs ≤ fuel
        → IsWeighted cs
        → IsSorted cs
        → (output : List (Candidate P)) × (draw random fuel round cs ≡ some output)
          × Perm output cs
          × IsSorted output
          × ((m : ℕ)
              → All (λ c. m ≤ c.target.priority) cs
              → All (λ c. m ≤ c.target.priority) output)
    unfolding draw
    draw-Ordered fuel round [] l w s = ([], refl, Perm.rfl, tt, λ m h. tt)
    draw-Ordered zero round (c ∷ rest) l w s = absurd (omega arith)
    draw-Ordered (suc fuel) round (c ∷ rest) l w s =
        let (d, others, e, wo, p) = pick-Without round c rest w in
        let (output, r, sh, so, keep) =
          draw-Ordered fuel (round + 1) others (omega (arith, Without-length wo))
            (Without-All (λ x. 0 < x.target.weight) wo w).1 (Without-IsSorted wo s) in
        let first : All (λ x. c.target.priority ≤ x.target.priority) (c ∷ rest) =
          (omega arith, s.0) in
        let behind =
          keep c.target.priority
            (Without-All (λ x. c.target.priority ≤ x.target.priority) wo first).1 in
        (
          d ∷ output,
          rw (e, r, draw) refl,
          Perm.trans (Perm.cons d sh) (Without-perm wo),
          (All-le d.target.priority c.target.priority output (omega arith) behind, so),
          λ m h. let (q, a) = Without-All (λ x. m ≤ x.target.priority) wo h in (q, keep m a),
        )

    -- If every weight is positive and the random source stays below the total that it is given, the
    -- order is computed without a panic: the result has the same candidates as the input, each as
    -- often, and no candidate stands behind one of a larger priority number.
    pub weighted_priority_order_total :
        (cs : List (Candidate P))
        → IsWeighted cs
        → (output : List (Candidate P)) × (weighted_priority_order random cs ≡ some output)
          × Perm output cs
          × IsSorted output
    unfolding weighted_priority_order
    weighted_priority_order_total cs w =
        let (output, r, sh, so, keep) =
          draw-Ordered (length (sort cs)) 0 (sort cs) (omega arith)
            (sort-All (λ c. 0 < c.target.weight) cs w) (sort-IsSorted cs) in
        (output, r, Perm.trans sh (sort-perm cs), so)
