-- ===== src/Dispatch/Assign/Slots/Prices.antt =====
-- `assign_slots`: the matrix of the costs, whose entries are those of edges or the forbidden cost.
use tt_aiops_platform.Prelude.{
  ℕ, zero, suc, ◌+◌, ◌≡◌, ◌≤◌, ◌<◌, ◌⊎◌, refl, sym, ap, subst, ◌∙◌, true, List, [], ◌∷◌, map, range,
  inl, inr, Option-cases, length, get_or, All, copies, one_if_same, arith, pair_eq,
}
use tt_aiops_platform.Prelude.Maps
use tt_aiops_platform.Prelude.Int.{ℤ, pos, pos_part, neg_part, ltb_ℤ}
use tt_aiops_platform.Dispatch.Cover.{Edge}
use tt_aiops_platform.Dispatch.Cover.Served.{HasEdge}
use tt_aiops_platform.Dispatch.Assign.Bounds.{IsMatrix}
use tt_aiops_platform.Dispatch.Assign.Slots.{Costs, add_costs, c_of, enumerate, forbidden_cost}
use tt_aiops_platform.Dispatch.Assign.Slots.Least.{Joins, lookup-add_costs}

-- A matrix by its entries.
abbrev pub table : (ℕ → ℕ → ℤ) → ℕ → ℕ → List (List ℤ)
table f n m = map (λ i. map (λ j. f i j) (range 0 m)) (range 0 n)

pub length-map-range : {B : Type 0} (g : ℕ → B) (i n : ℕ) → length (map g (range i n)) ≡ n
length-map-range g i zero = refl
length-map-range g i (suc n) = ap suc (length-map-range g (suc i) n)

All-map-range :
    {B : Type 0} (P : B → Type 0) (g : ℕ → B) (i n : ℕ)
    → ((k : ℕ) → P (g k))
    → All P (map g (range i n))
All-map-range P g i zero h = tt
All-map-range P g i (suc n) h = (h i, All-map-range P g (suc i) n h)

pub get_or-map-range :
    {B : Type 0} (g : ℕ → B) (i n k : ℕ) (d : B)
    → k < n
    → get_or (map g (range i n)) k d ≡ g (i + k)
get_or-map-range g i zero k d lt = absurd (omega arith)
get_or-map-range g i (suc n) zero d lt = ap g (omega arith)
get_or-map-range g i (suc n) (suc k) d lt =
    get_or-map-range g (suc i) n k d (omega arith) ∙ ap g (omega arith)

abbrev pub IsPrice : ℕ → ℤ → Type 0
IsPrice c e = (neg_part e ≡ 0) × (pos_part e ≤ c)

pub table-IsMatrix :
    (f : ℕ → ℕ → ℤ) (n m c : ℕ) → ((i j : ℕ) → IsPrice c (f i j)) → IsMatrix (table f n m) n m c
table-IsMatrix f n m c h = record {
  n_rows = length-map-range (λ i. map (λ j. f i j) (range 0 m)) 0 n;
  rows =
      All-map-range (λ r. (length r ≡ m) × All (IsPrice c) r) (λ i. map (λ j. f i j) (range 0 m)) 0
        n (λ i. (length-map-range (f i) 0 m, All-map-range (IsPrice c) (f i) 0 m (h i)));
}

pub table-entry :
    (f : ℕ → ℕ → ℤ) (n m i j : ℕ)
    → i < n
    → j < m
    → get_or (get_or (table f n m) i []) j (pos 0) ≡ f i j
table-entry f n m i j hi hj =
    ap (λ r. get_or r j (pos 0)) (get_or-map-range (λ i. map (λ j. f i j) (range 0 m)) 0 n i [] hi)
    ∙ get_or-map-range (f (0 + i)) 0 m j (pos 0) hj
    ∙ ap (λ k. f k (0 + j)) (omega arith)
    ∙ ap (f i) (omega arith)

-- How often a truck and a slot stand in the pairs.
abbrev pub truck_copies : ℕ → List (ℕ × ℕ) → ℕ
truck_copies t [] = 0
truck_copies t ((u, s) ∷ pairs) = one_if_same t u + truck_copies t pairs

abbrev pub slot_copies : ℕ → List (ℕ × ℕ) → ℕ
slot_copies s [] = 0
slot_copies s ((t, r) ∷ pairs) = one_if_same s r + slot_copies s pairs

-- The edges' costs are not negative and at most the cost of a forbidden pair.
abbrev pub IsPriced : ℕ → List Edge → Type 0
IsPriced c edges = All (λ e. (neg_part e.2 ≡ 0) × (pos_part e.2 ≤ c)) edges

-- Different trucks and different slots, each pair along an edge.
pub record IsMatching (n_trucks : ℕ) (slot_wpos : List ℕ) (edges : List Edge) (pairs : List (ℕ × ℕ))
    : Type 0 where
  pub one_truck : (t : ℕ) → truck_copies t pairs ≤ 1
  pub one_slot : (s : ℕ) → slot_copies s pairs ≤ 1
  pub along :
      All
        (λ p.
          (p.0 < n_trucks) × (p.1 < length slot_wpos) × HasEdge edges p.0 (get_or slot_wpos p.1 0))
        pairs

HasEdge-of-Joins : (t w : ℕ) (c : ℤ) (edges : List Edge) → Joins t w c edges → HasEdge edges t w
HasEdge-of-Joins t w c [] j = absurd j
HasEdge-of-Joins t w c (e ∷ edges) (inl (q0, q1, q2)) = inl (q0, q1)
HasEdge-of-Joins t w c (e ∷ edges) (inr j) = inr (HasEdge-of-Joins t w c edges j)

pub IsPrice-of-Joins :
    (t w c : ℕ) (d : ℤ) (edges : List Edge) → IsPriced c edges → Joins t w d edges → IsPrice c d
IsPrice-of-Joins t w c d [] h j = absurd j
IsPrice-of-Joins t w c d (e ∷ edges) h (inl (q0, q1, q2)) = subst (IsPrice c) q2 h.0
IsPrice-of-Joins t w c d (e ∷ edges) h (inr j) = IsPrice-of-Joins t w c d edges h.1 j

module _ (n_trucks : ℕ) (slot_wpos : List ℕ) (edges : List Edge) where
  abbrev pub costs : Costs
  costs = add_costs n_trucks edges []

  -- The matrix with the trucks, or the slots, as its rows.
  abbrev pub trucks_first : List (List ℤ)
  trucks_first = table (λ t s. c_of slot_wpos costs t s) n_trucks (length slot_wpos)

  abbrev pub slots_first : List (List ℤ)
  slots_first = table (λ s t. c_of slot_wpos costs t s) (length slot_wpos) n_trucks

  -- An entry of the matrix is forbidden, or the cost of an edge.
  c_of-cases :
      (t s : ℕ)
      → (c_of slot_wpos costs t s ≡ forbidden_cost)
        ⊎ ((d : ℤ) × (c_of slot_wpos costs t s ≡ d) × Joins t (get_or slot_wpos s 0) d edges)
  unfolding c_of Maps.lookup
  c_of-cases t s = elim (Option-cases (Maps.lookup (t, get_or slot_wpos s 0) costs)) [
    | inl e ↦ inl (rw e refl)
    | inr (d, e) ↦ elim (lookup-add_costs n_trucks t (get_or slot_wpos s 0) edges [] d e) [
      | inl z ↦ absurd (ground arith)
      | inr (lt, j) ↦ inr (d, rw e refl, j)
    ]
  ]

  pub c_of-IsPrice :
      (t s : ℕ) → IsPriced 1000000000 edges → IsPrice 1000000000 (c_of slot_wpos costs t s)
  c_of-IsPrice t s priced = elim (c_of-cases t s) [
    | inl e ↦ subst (IsPrice 1000000000) (sym e) (omega arith)
    | inr (d, e, j) ↦
        subst (IsPrice 1000000000) (sym e)
          (IsPrice-of-Joins t (get_or slot_wpos s 0) 1000000000 d edges priced j)
  ]

  pub allowed-HasEdge :
      (t s : ℕ)
      → ltb_ℤ (c_of slot_wpos costs t s) forbidden_cost ≡ true
      → HasEdge edges t (get_or slot_wpos s 0)
  allowed-HasEdge t s h = elim (c_of-cases t s) [
    | inl e ↦ absurd (ground (arith, ap (λ z. ltb_ℤ z forbidden_cost) e))
    | inr (d, e, j) ↦ HasEdge-of-Joins t (get_or slot_wpos s 0) d edges j
  ]

module _ (slot_wpos : List ℕ) (cost : Costs) where
  first-below : (x i : ℕ) (js : List ℕ) → x < i → truck_copies x (enumerate slot_wpos cost i js) ≡ 0
  unfolding enumerate
  first-below x i [] lt = refl
  first-below x i (j ∷ js) lt = ground (arith, first-below x (suc i) js)

  pub first-once : (x i : ℕ) (js : List ℕ) → truck_copies x (enumerate slot_wpos cost i js) ≤ 1
  unfolding enumerate
  first-once x i [] = omega arith
  first-once x i (j ∷ js) = ground (arith, first-once x (suc i) js, first-below x (suc i) js)

  pub second-copies :
      (x i : ℕ) (js : List ℕ) → slot_copies x (enumerate slot_wpos cost i js) ≡ copies x js
  unfolding enumerate
  second-copies x i [] = refl
  second-copies x i (j ∷ js) = omega (arith, second-copies x (suc i) js)

  pub enumerate-range :
      (m k i : ℕ) (js : List ℕ)
      → i + length js ≡ k
      → All (λ j. j < m) js
      → All (λ p. (p.0 < k) × (p.1 < m)) (enumerate slot_wpos cost i js)
  unfolding enumerate
  enumerate-range m k i [] e h = tt
  enumerate-range m k i (j ∷ js) e h =
      ((omega arith, h.0), enumerate-range m k (suc i) js (omega arith) h.1)
