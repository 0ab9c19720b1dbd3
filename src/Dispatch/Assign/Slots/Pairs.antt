-- ===== src/Dispatch/Assign/Slots/Pairs.antt =====
-- What `assign_slots` promises: a matching along the edges, for each truck and each slot one at most.
use tt_aiops_platform.Prelude.{
  ℕ, ◌*◌, ◌≡◌, ◌≤◌, ◌<◌, refl, Bool, true, ◌||◌, some, List, [], ◌∷◌, map, select, inl, inr,
  Bool-cases, eqb, leb, length, get_or, All, arith, pair_eq,
}
use tt_aiops_platform.Prelude.Int.{ltb_ℤ}
use tt_aiops_platform.Dispatch.Cover.{Edge}
use tt_aiops_platform.Dispatch.Cover.Served.{HasEdge}
use tt_aiops_platform.Dispatch.Assign.{hungarian}
use tt_aiops_platform.Dispatch.Assign.Weights.{IsChoice}
use tt_aiops_platform.Dispatch.Assign.Optimal.{hungarian-least}
use tt_aiops_platform.Dispatch.Assign.Bounds.{cost_from}
use tt_aiops_platform.Dispatch.Assign.Slots.{
  Costs, c_of, truck_rows, slot_rows, enumerate, pairs_of, joined, works_of, assign_slots,
  forbidden_cost,
}
use tt_aiops_platform.Dispatch.Assign.Slots.Prices.{
  table-IsMatrix, truck_copies, slot_copies, IsPriced, IsMatching, costs, trucks_first, slots_first,
  c_of-IsPrice, allowed-HasEdge, first-once, second-copies, enumerate-range,
}

abbrev pub swapped : List (ℕ × ℕ) → List (ℕ × ℕ)
swapped pairs = map (λ (s, t). (t, s)) pairs

swapped-copies :
    (x : ℕ) (ps : List (ℕ × ℕ))
    → (truck_copies x (swapped ps) ≡ slot_copies x ps)
      × (slot_copies x (swapped ps) ≡ truck_copies x ps)
swapped-copies x [] = (refl, refl)
swapped-copies x ((s, t) ∷ ps) = omega (arith, swapped-copies x ps)

swapped-All :
    (n m : ℕ) (ps : List (ℕ × ℕ))
    → All (λ p. (p.0 < m) × (p.1 < n)) ps
    → All (λ p. (p.0 < n) × (p.1 < m)) (swapped ps)
swapped-All n m [] h = tt
swapped-All n m ((s, t) ∷ ps) h = ((h.0.1, h.0.0), swapped-All n m ps h.1)

select-copies :
    (f : ℕ × ℕ → Bool) (x : ℕ) (ps : List (ℕ × ℕ))
    → (truck_copies x (select f ps) ≤ truck_copies x ps)
      × (slot_copies x (select f ps) ≤ slot_copies x ps)
select-copies f x [] = (omega arith, omega arith)
select-copies f x (p ∷ ps) = elim (Bool-cases (f p)) [
  | inl e ↦ rw (e, select) (omega (arith, select-copies f x ps))
  | inr e ↦ rw (e, select) (omega (arith, select-copies f x ps))
]

select-All {κ} :
    (P Q : ℕ × ℕ → Type κ) (f : ℕ × ℕ → Bool) (ps : List (ℕ × ℕ))
    → ((p : ℕ × ℕ) → P p → f p ≡ true → Q p)
    → All P ps
    → All Q (select f ps)
select-All P Q f [] g h = tt
select-All P Q f (p ∷ ps) g h = elim (Bool-cases (f p)) [
  | inl e ↦ rw (e, select) (g p h.0 e, select-All P Q f ps g h.1)
  | inr e ↦ rw (e, select) (select-All P Q f ps g h.1)
]

-- Different trucks and different slots, in range.
record IsPairing (n_trucks n_slots : ℕ) (pairs : List (ℕ × ℕ)) : Type 0 where
  pub one_truck : (t : ℕ) → truck_copies t pairs ≤ 1
  pub one_slot : (s : ℕ) → slot_copies s pairs ≤ 1
  pub in_range : All (λ p. (p.0 < n_trucks) × (p.1 < n_slots)) pairs

module _ (n_trucks : ℕ) (slot_wpos : List ℕ) (edges : List Edge)
    (priced : IsPriced 1000000000 edges)
    (few : length slot_wpos * 1000000000 < 2305843009213693951) where
  abbrev table_costs : Costs
  table_costs = costs n_trucks slot_wpos edges

  pub trucks-least :
      n_trucks ≤ length slot_wpos
      → (js : List ℕ) × (hungarian (trucks_first n_trucks slot_wpos edges) ≡ some js)
        × IsChoice n_trucks (length slot_wpos) js
        × ((ks : List ℕ)
            → IsChoice n_trucks (length slot_wpos) ks
            → cost_from (trucks_first n_trucks slot_wpos edges) 0 js
              ≤ cost_from (trucks_first n_trucks slot_wpos edges) 0 ks)
  trucks-least le =
      hungarian-least (trucks_first n_trucks slot_wpos edges) n_trucks (length slot_wpos) 1000000000
        (table-IsMatrix (λ t s. c_of slot_wpos table_costs t s) n_trucks (length slot_wpos)
          1000000000 (λ t s. c_of-IsPrice n_trucks slot_wpos edges t s priced))
        le (omega arith)

  pub slots-least :
      length slot_wpos ≤ n_trucks
      → (js : List ℕ) × (hungarian (slots_first n_trucks slot_wpos edges) ≡ some js)
        × IsChoice (length slot_wpos) n_trucks js
        × ((ks : List ℕ)
            → IsChoice (length slot_wpos) n_trucks ks
            → cost_from (slots_first n_trucks slot_wpos edges) 0 js
              ≤ cost_from (slots_first n_trucks slot_wpos edges) 0 ks)
  slots-least le =
      hungarian-least (slots_first n_trucks slot_wpos edges) (length slot_wpos) n_trucks 1000000000
        (table-IsMatrix (λ s t. c_of slot_wpos table_costs t s) (length slot_wpos) n_trucks
          1000000000 (λ s t. c_of-IsPrice n_trucks slot_wpos edges t s priced))
        le few

  pairs_of-IsPairing :
      (pairs : List (ℕ × ℕ)) × (pairs_of slot_wpos table_costs n_trucks (length slot_wpos)
        ≡ some pairs)
      × IsPairing n_trucks (length slot_wpos) pairs
  unfolding pairs_of truck_rows slot_rows
  pairs_of-IsPairing = elim (Bool-cases (leb n_trucks (length slot_wpos))) [
    | inl e ↦
        let (js, q, k, _) = trucks-least (ground arith) in
        (
          enumerate slot_wpos table_costs 0 js,
          rw (pairs_of, e, q) refl,
          record {
            one_truck = λ t. first-once slot_wpos table_costs t 0 js;
            one_slot =
                λ s. omega (arith, second-copies slot_wpos table_costs s 0 js, k.different s);
            in_range =
                enumerate-range slot_wpos table_costs (length slot_wpos) n_trucks 0 js
                  (omega (arith, k.one_each)) k.in_range;
          },
        )
    | inr e ↦
        let (js, q, k, _) = slots-least (ground arith) in
        let ps = enumerate slot_wpos table_costs 0 js in
        (
          swapped ps,
          rw (pairs_of, e, q) refl,
          record {
            one_truck = λ t. omega (
              arith,
              swapped-copies t ps,
              second-copies slot_wpos table_costs t 0 js,
              k.different t,
            );
            one_slot =
                λ s. omega (arith, swapped-copies s ps, first-once slot_wpos table_costs s 0 js);
            in_range = swapped-All n_trucks (length slot_wpos) ps (
                enumerate-range slot_wpos table_costs n_trucks (length slot_wpos) 0 js
                  (omega (arith, k.one_each)) k.in_range);
          },
        )
  ]

  joined-IsMatching :
      (pairs : List (ℕ × ℕ))
      → IsPairing n_trucks (length slot_wpos) pairs
      → IsMatching n_trucks slot_wpos edges (joined slot_wpos table_costs pairs)
  unfolding joined
  joined-IsMatching pairs h =
      let f = λ (p : ℕ × ℕ). ltb_ℤ (c_of slot_wpos table_costs p.0 p.1) forbidden_cost in
      record {
        one_truck = λ t. omega (arith, select-copies f t pairs, h.one_truck t);
        one_slot = λ s. omega (arith, select-copies f s pairs, h.one_slot s);
        along =
            select-All (λ p. (p.0 < n_trucks) × (p.1 < length slot_wpos))
              (λ p.
                (p.0 < n_trucks)
                × (p.1 < length slot_wpos)
                × HasEdge edges p.0 (get_or slot_wpos p.1 0))
              f pairs (λ p r e. (r.0, r.1, allowed-HasEdge n_trucks slot_wpos edges p.0 p.1 e))
              h.in_range;
      }

  -- When the costs of the edges are not negative and at most the forbidden cost, and the slots fewer
  -- than two thousand million, the assignment returns pairs of trucks and slots' works, from different
  -- trucks and different slots, each pair along an edge.
  pub assign_slots-IsMatching :
      (pairs : List (ℕ × ℕ)) × (assign_slots n_trucks slot_wpos edges
        ≡ some (works_of slot_wpos table_costs pairs))
      × IsMatching n_trucks slot_wpos edges pairs
  unfolding assign_slots works_of
  assign_slots-IsMatching = elim (Bool-cases (eqb n_trucks 0 || eqb (length slot_wpos) 0)) [
    | inl e ↦ (
      [],
      rw (assign_slots, e) refl,
      record { one_truck = λ t. omega arith; one_slot = λ s. omega arith; along = tt },
    )
    | inr e ↦
        let (pairs, q, h) = pairs_of-IsPairing in
        (
          joined slot_wpos table_costs pairs,
          rw (assign_slots, e, q) refl,
          joined-IsMatching pairs h,
        )
  ]
