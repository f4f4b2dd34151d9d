-- ===== src/Routing/Order/Select.antt =====
-- The weighted choice within a tier: how the draws are shared out.
use calude_proxy.Base.{
  ℕ, zero, suc, ◌+◌, ◌-◌, ◌≤◌, ◌<◌, ◌≡◌, ◌↔◌, List, [], ◌∷◌, length, ltb, arith, Bool-cases, inl,
  inr,
}
use calude_proxy.Routing.Order.{Candidate, total_weight, select_from, select}

module _ {ℓ} {P : Type ℓ} where
  -- The weight of the first `i` candidates.
  abbrev pub weight_before : ℕ → List (Candidate P) → ℕ
  weight_before zero tier = 0
  weight_before (suc i) [] = 0
  weight_before (suc i) (c ∷ rest) = c.target.weight + weight_before i rest

  -- What `select_from` finds lies past `index`, and the draw falls into its share.
  select_from_lem :
      (index choice : ℕ) (tier : List (Candidate P))
      → choice < total_weight tier
      → (i : ℕ) × (select_from index choice tier ≡ index + i)
        × (i < length tier)
        × (weight_before i tier ≤ choice)
        × (choice < weight_before (suc i) tier)
  unfolding select_from total_weight
  select_from_lem index choice [] h = absurd (omega arith)
  select_from_lem index choice (c ∷ rest) h = elim (Bool-cases (ltb choice c.target.weight)) [
    | inl hit ↦ (0, ground arith, omega arith, omega arith, ground arith)
    | inr miss ↦
        let (i, e, l, p, q) =
          select_from_lem (index + 1) (choice - c.target.weight) rest (ground arith) in
        (suc i, ground arith, omega arith, ground arith, ground arith)
  ]

  select_from_share :
      (index choice i : ℕ) (tier : List (Candidate P))
      → i < length tier
      → weight_before i tier ≤ choice
      → choice < weight_before (suc i) tier
      → select_from index choice tier ≡ index + i
  unfolding select_from
  select_from_share index choice i [] l p q = elim l [ ]
  select_from_share index choice zero (c ∷ rest) l p q = ground arith
  select_from_share index choice (suc i) (c ∷ rest) l p q =
      ground (arith, select_from_share (index + 1) (choice - c.target.weight) i rest)

  pub select_lt :
      (choice : ℕ) (tier : List (Candidate P))
      → choice < total_weight tier
      → select choice tier < length tier
  unfolding select
  select_lt choice tier h = let (j, e, k, p, q) = select_from_lem 0 choice tier h in omega arith

  -- A draw below the total weight selects a position within the tier, and it selects the position
  -- `i` exactly if it falls into the share of `i`: from the weight of the candidates before it, as
  -- long as its own weight. So each target is taken by as many draws as its weight says.
  pub select_share :
      (choice i : ℕ) (tier : List (Candidate P))
      → choice < total_weight tier
      → i < length tier
      → (select choice tier < length tier)
        × ((select choice tier ≡ i)
            ↔ ((weight_before i tier ≤ choice) × (choice < weight_before (suc i) tier)))
  unfolding select
  select_share choice i tier h l =
      let (j, e, k, p, q) = select_from_lem 0 choice tier h in
      (
        omega arith,
        (
          (λ same. let eq : j ≡ i = omega arith in (rw (← eq) p, rw (← eq) q)),
          λ share. omega (arith, select_from_share 0 choice i tier l share.0 share.1),
        ),
      )
