-- ===== src/Routing/Order/Examples.antt =====
-- Two targets of one tier and one of the next, with a random source that draws zero.
use calude_proxy.Base.{ℕ, ◌≤◌, ◌<◌, ◌≡◌, ◌↔◌, refl, some, List, [], ◌∷◌, length, arith}
use mathlib.Core.List.{Perm}
use calude_proxy.Routing.Order.{
  Candidate, insert, sort, tier_len, total_weight, select_from, select, remove, pick, draw,
  weighted_priority_order,
}
use calude_proxy.Routing.Order.Select.{weight_before, select_share}
use calude_proxy.Routing.Order.Sorted.{IsSorted, weighted_priority_order_total}

abbrev target : ℕ → ℕ → Candidate ℕ
target priority weight = record {
  target = record { provider = "p"; model = "m"; priority = priority; weight = weight };
  payload = 0;
}

abbrev targets : List (Candidate ℕ)
targets = target 2 1 ∷ target 1 3 ∷ target 1 2 ∷ []

abbrev pub zero_draw : ℕ → ℕ → ℕ
zero_draw round total = 0

weighted_priority_order_total_example :
    (output : List (Candidate ℕ)) × (weighted_priority_order zero_draw targets ≡ some output)
    × Perm output targets
    × IsSorted output
weighted_priority_order_total_example =
    weighted_priority_order_total zero_draw (λ round total h. h) targets
      (omega arith, (omega arith, (omega arith, tt)))

abbrev tier : List (Candidate ℕ)
tier = target 1 3 ∷ target 1 2 ∷ []

select_share_example :
    (select 3 tier < length tier)
    × ((select 3 tier ≡ 1) ↔ ((weight_before 1 tier ≤ 3) × (3 < weight_before 2 tier)))
unfolding total_weight
select_share_example = select_share 3 1 tier (omega arith) (omega arith)

-- A single candidate is drawn whatever it is, as long as it has a weight.
pub one_ordered {ℓ} :
    {P : Type ℓ} (payload : P)
    → let c : Candidate P = record {
      target = record { provider = "p"; model = "m"; priority = 1; weight = 1 };
      payload = payload;
    } in
      weighted_priority_order zero_draw (c ∷ []) ≡ some (c ∷ [])
unfolding weighted_priority_order draw pick remove select select_from total_weight tier_len sort
    insert
one_ordered payload = refl
