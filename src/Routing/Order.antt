-- ===== src/Routing/Order.antt =====
-- `weighted_priority_order` of src/routing.rs, over whatever a target is queued with. A panic is
-- `none`. The random source is a parameter: what it returns in each round for a given total.
pub mod Examples
pub mod Select
pub mod Sorted
use calude_proxy.Base.{
  ℕ, zero, suc, ◌+◌, ◌-◌, ◌≤◌, Option, none, some, List, [], ◌∷◌, length, take, ltb, leb, ◌==◌,
  if◌then◌else◌,
}
use calude_proxy.Config.{TargetConfig}
use calude_proxy.Json.{and_then}

-- A target with the provider and the request that go with it.
pub record Candidate {ℓ} (P : Type ℓ) : Type ℓ where
  pub target : TargetConfig
  pub payload : P

-- `random_range(0..total)` panics on an empty range.
abbrev pub random_range : (ℕ → ℕ → ℕ) → ℕ → ℕ → Option ℕ
random_range random round total = if total == 0 then none else some (random round total)

module _ {ℓ} {P : Type ℓ} where
  -- `sort_by_key` on the priority, which keeps the order of equal keys.
  pub insert : Candidate P → List (Candidate P) → List (Candidate P)
  insert c [] = c ∷ []
  insert c (d ∷ rest) =
      if leb c.target.priority d.target.priority then c ∷ d ∷ rest else d ∷ insert c rest

  pub sort : List (Candidate P) → List (Candidate P)
  unfolding insert
  sort [] = []
  sort (c ∷ rest) = insert c (sort rest)

  -- The length of the first tier: `take_while` on the priority of the head, counted.
  pub tier_len : ℕ → List (Candidate P) → ℕ
  tier_len priority [] = 0
  tier_len priority (c ∷ rest) =
      let more = suc (tier_len priority rest) in if c.target.priority == priority then more else 0

  -- The sum of the weights of a tier.
  pub total_weight : List (Candidate P) → ℕ
  total_weight [] = 0
  total_weight (c ∷ rest) = c.target.weight + total_weight rest

  -- The inner `for`, from `index` on; `selected` stays 0 if no test passes.
  pub select_from : ℕ → ℕ → List (Candidate P) → ℕ
  select_from index choice [] = 0
  select_from index choice (c ∷ rest) =
      let later = select_from (index + 1) (choice - c.target.weight) rest in
      if ltb choice c.target.weight then index else later

  pub select : ℕ → List (Candidate P) → ℕ
  unfolding select_from
  select choice tier = select_from 0 choice tier

  -- `Vec::remove`: the element and what is left; it panics out of range.
  pub remove : ℕ → List (Candidate P) → Option (Candidate P × List (Candidate P))
  remove i [] = none
  remove zero (c ∷ rest) = some (c, rest)
  remove (suc i) (c ∷ rest) = elim (remove i rest) [
    | none ↦ none
    | some (d, others) ↦ some (d, c ∷ others)
  ]

  -- The body of the `while` up to `candidates.remove(selected)`.
  pub pick : (ℕ → ℕ → ℕ) → ℕ → ℕ → List (Candidate P) → Option (Candidate P × List (Candidate P))
  pick random round priority candidates =
      let tier = take (tier_len priority candidates) candidates in
      and_then (random_range random round (total_weight tier))
        (λ choice. remove (select choice tier) candidates)

  -- The `while`, with `fuel` rounds at most; `fuel` is the number of candidates.
  pub draw : (ℕ → ℕ → ℕ) → ℕ → ℕ → List (Candidate P) → Option (List (Candidate P))
  draw random fuel round [] = some []
  draw random zero round (c ∷ rest) = none
  draw random (suc fuel) round (c ∷ rest) = elim (pick random round c.target.priority (c ∷ rest)) [
    | none ↦ none
    | some (d, others) ↦ elim (draw random fuel (round + 1) others) [
      | none ↦ none
      | some output ↦ some (d ∷ output)
    ]
  ]

  pub weighted_priority_order : (ℕ → ℕ → ℕ) → List (Candidate P) → Option (List (Candidate P))
  weighted_priority_order random candidates =
      let sorted = sort candidates in draw random (length sorted) 0 sorted
