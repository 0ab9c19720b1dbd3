-- ===== src/Dispatch/Assign/Slots.antt =====
-- crates/api/src/livemap.rs: `assign_slots`, the assignment of trucks to the slots of works. It is
-- `none` where `hungarian` is.
pub mod Least
pub mod Prices
pub mod Pairs
pub mod Served
pub mod Full
use tt_aiops_platform.Prelude.{
  ℕ, zero, suc, Bool, true, false, ◌||◌, Option, none, some, List, [], ◌∷◌, map, range, select,
  if◌then◌else◌, eqb, ltb, leb, length, get_or, unwrap_or, pair_eq,
}
use tt_aiops_platform.Prelude.Maps
use tt_aiops_platform.Prelude.Int.{ℤ, pos, min_ℤ, ltb_ℤ}
use tt_aiops_platform.Dispatch.Cover.{Edge}
use tt_aiops_platform.Dispatch.Assign.{hungarian}

abbrev pub forbidden_cost : ℤ
forbidden_cost = pos 1000000000

-- `cost`: the least cost of each pair of a truck and a work.
abbrev pub Costs : Type 0
Costs = List ((ℕ × ℕ) × ℤ)

unfoldable pub add_cost : ℕ → Edge → Costs → Costs
add_cost n_trucks (t, w, c) cost =
    if ltb t n_trucks
    then Maps.insert (t, w) (min_ℤ (unwrap_or (Maps.lookup (t, w) cost) c) c) cost
    else cost

unfoldable pub add_costs : ℕ → List Edge → Costs → Costs
add_costs n_trucks [] cost = cost
add_costs n_trucks (e ∷ edges) cost = add_costs n_trucks edges (add_cost n_trucks e cost)

module _ (slot_wpos : List ℕ) (cost : Costs) where
  unfoldable pub c_of : ℕ → ℕ → ℤ
  c_of t s = unwrap_or (Maps.lookup (t, get_or slot_wpos s 0) cost) forbidden_cost

  -- The matrix `a` with the trucks or with the slots as its rows.
  unfoldable pub truck_rows : ℕ → ℕ → List (List ℤ)
  truck_rows n_trucks n_slots = map (λ t. map (λ s. c_of t s) (range 0 n_slots)) (range 0 n_trucks)

  unfoldable pub slot_rows : ℕ → ℕ → List (List ℤ)
  slot_rows n_trucks n_slots = map (λ s. map (λ t. c_of t s) (range 0 n_trucks)) (range 0 n_slots)

  -- `enumerate`, from the index `i`.
  unfoldable pub enumerate : ℕ → List ℕ → List (ℕ × ℕ)
  enumerate i [] = []
  enumerate i (x ∷ xs) = (i, x) ∷ enumerate (suc i) xs

  -- `pairs`: with the slots as the rows, the parts of each pair are swapped.
  unfoldable pub pairs_of : ℕ → ℕ → Option (List (ℕ × ℕ))
  pairs_of n_trucks n_slots = elim (leb n_trucks n_slots) [
    | true ↦ elim (hungarian (truck_rows n_trucks n_slots)) [
      | none ↦ none
      | some js ↦ some (enumerate 0 js)
    ]
    | false ↦ elim (hungarian (slot_rows n_trucks n_slots)) [
      | none ↦ none
      | some js ↦ some (map (λ (s, t). (t, s)) (enumerate 0 js))
    ]
  ]

  -- The pairs of a truck and a slot that an edge joins.
  unfoldable pub joined : List (ℕ × ℕ) → List (ℕ × ℕ)
  joined pairs = select (λ (t, s). ltb_ℤ (c_of t s) forbidden_cost) pairs

  unfoldable pub works_of : List (ℕ × ℕ) → List (ℕ × ℕ)
  works_of pairs = map (λ (t, s). (t, get_or slot_wpos s 0)) pairs

unfoldable pub assign_slots : ℕ → List ℕ → List Edge → Option (List (ℕ × ℕ))
assign_slots n_trucks slot_wpos edges =
    let n_slots = length slot_wpos in
    let cost = add_costs n_trucks edges [] in
    if eqb n_trucks 0 || eqb n_slots 0
    then some []
    else elim (pairs_of slot_wpos cost n_trucks n_slots) [
      | none ↦ none
      | some pairs ↦ some (works_of slot_wpos cost (joined slot_wpos cost pairs))
    ]
