-- ===== src/Dispatch/Assign/Slots/Served.antt =====
-- `assign_slots`: what a full set of trucks for the slots costs in the matrix.
use tt_aiops_platform.Prelude.{
  ℕ, zero, suc, ◌+◌, ◌*◌, ◌≡◌, ◌≤◌, ◌<◌, refl, ap, subst, Bool, true, List, [], ◌∷◌, select, inl,
  inr, Bool-cases, if◌then◌else◌, eqb, length, get_or, All, copies, arith, pair_eq,
}
use tt_aiops_platform.Prelude.Int.{ℤ, pos, pos_part, ltb_ℤ}
use tt_aiops_platform.Dispatch.Cover.{Edge}
use tt_aiops_platform.Dispatch.Cover.Served.{HasEdge}
use tt_aiops_platform.Dispatch.Assign.Bounds.{cost_from, All-get_or}
use tt_aiops_platform.Dispatch.Assign.Weights.{IsChoice}
use tt_aiops_platform.Dispatch.Assign.Slots.{Costs, enumerate, forbidden_cost}
use tt_aiops_platform.Dispatch.Assign.Slots.Least.{Joins}
use tt_aiops_platform.Dispatch.Assign.Slots.Pairs.{swapped}
use tt_aiops_platform.Dispatch.Assign.Slots.Prices.{table-entry, table}

-- A truck for each slot, different ones, each joined to the slot's work by an edge.
pub record IsServing (n_trucks : ℕ) (slot_wpos : List ℕ) (edges : List Edge) (ts : List ℕ)
    : Type 0 where
  pub choice : IsChoice (length slot_wpos) n_trucks ts
  pub joins : (s : ℕ) → s < length slot_wpos → HasEdge edges (get_or ts s 0) (get_or slot_wpos s 0)

pub Joins-of-HasEdge :
    (t w : ℕ) (edges : List Edge) → HasEdge edges t w → (d : ℤ) × Joins t w d edges
Joins-of-HasEdge t w [] j = absurd j
Joins-of-HasEdge t w (e ∷ edges) (inl (q0, q1)) = (e.2, inl (q0, q1, refl))
Joins-of-HasEdge t w (e ∷ edges) (inr j) = let (d, k) = Joins-of-HasEdge t w edges j in (d, inr k)

module _ (a : List (List ℤ)) (c : ℕ) where
  pub cost-bound :
      (i : ℕ) (ks : List ℕ)
      → ((k : ℕ)
          → k < length ks
          → pos_part (get_or (get_or a (i + k) []) (get_or ks k 0) (pos 0)) ≤ c)
      → cost_from a i ks ≤ length ks * c
  cost-bound i [] h = omega arith
  cost-bound i (j ∷ ks) h =
      let here : pos_part (get_or (get_or a i []) j (pos 0)) ≤ c =
        subst (λ z. pos_part (get_or (get_or a z []) j (pos 0)) ≤ c) (omega arith)
          (h 0 (omega arith)) in
      omega (
        arith,
        cost-bound (suc i) ks (λ k lt.
            subst (λ z. pos_part (get_or (get_or a z []) (get_or ks k 0) (pos 0)) ≤ c) (omega arith)
              (h (suc k) (omega arith))),
        here,
      )

  entry-le :
      (i : ℕ) (js : List ℕ) (k : ℕ)
      → k < length js
      → pos_part (get_or (get_or a (i + k) []) (get_or js k 0) (pos 0)) ≤ cost_from a i js
  entry-le i [] k lt = absurd (omega arith)
  entry-le i (j ∷ js) zero lt =
      let at_i : i ≡ i + 0 = omega arith in
      subst (λ z. pos_part (get_or (get_or a z []) j (pos 0)) ≤ cost_from a i (j ∷ js)) at_i
        (omega arith)
  entry-le i (j ∷ js) (suc k) lt =
      let at_k : suc i + k ≡ i + suc k = omega arith in
      subst
        (λ z. pos_part (get_or (get_or a z []) (get_or js k 0) (pos 0)) ≤ cost_from a i (j ∷ js))
        at_k (omega (arith, entry-le (suc i) js k (omega arith)))

pub select-all :
    (f : ℕ × ℕ → Bool) (ps : List (ℕ × ℕ)) → All (λ p. f p ≡ true) ps → select f ps ≡ ps
select-all f [] h = refl
select-all f (p ∷ ps) h = rw (h.0, select) (ap (λ l. p ∷ l) (select-all f ps h.1))

-- The place of `t` in a list.
abbrev pub place : ℕ → List ℕ → ℕ
place t [] = 0
place t (u ∷ us) = if eqb t u then 0 else suc (place t us)

pub place_lem :
    (t : ℕ) (us : List ℕ)
    → 1 ≤ copies t us
    → (place t us < length us) × (get_or us (place t us) 0 ≡ t)
place_lem t [] h = absurd (omega arith)
place_lem t (u ∷ us) h = elim (Bool-cases (eqb t u)) [
  | inl e ↦ rw e (omega arith, ground arith)
  | inr e ↦ rw e (let rest = place_lem t us (ground arith) in (omega (arith, rest), rest.1))
]

module _ (slot_wpos : List ℕ) (cost : Costs) where
  pub enumerate-All :
      (P : ℕ × ℕ → Type 0) (i : ℕ) (js : List ℕ)
      → ((k : ℕ) → k < length js → P (i + k, get_or js k 0))
      → All P (enumerate slot_wpos cost i js)
  unfolding enumerate
  enumerate-All P i [] h = tt
  enumerate-All P i (j ∷ js) h = (
    subst (λ z. P (z, j)) (omega arith) (h 0 (omega arith)),
    enumerate-All P (suc i) js
        (λ k lt. subst (λ z. P (z, get_or js k 0)) (omega arith) (h (suc k) (omega arith))),
  )

  pub length-enumerate : (i : ℕ) (js : List ℕ) → length (enumerate slot_wpos cost i js) ≡ length js
  unfolding enumerate
  length-enumerate i [] = refl
  length-enumerate i (j ∷ js) = ap suc (length-enumerate (suc i) js)

pub swapped-All-of :
    (P : ℕ × ℕ → Type 0) (ps : List (ℕ × ℕ)) → All (λ p. P (p.1, p.0)) ps → All P (swapped ps)
swapped-All-of P [] h = tt
swapped-All-of P ((s, t) ∷ ps) h = (h.0, swapped-All-of P ps h.1)

pub length-swapped : (ps : List (ℕ × ℕ)) → length (swapped ps) ≡ length ps
length-swapped [] = refl
length-swapped ((s, t) ∷ ps) = ap suc (length-swapped ps)

-- In a choice that costs less than the forbidden cost no entry is forbidden.
pub entries-less :
    (f : ℕ → ℕ → ℤ) (n m : ℕ) (js : List ℕ)
    → IsChoice n m js
    → cost_from (table f n m) 0 js < 1000000000
    → (k : ℕ) → k < length js
    → ltb_ℤ (f (0 + k) (get_or js k 0)) forbidden_cost ≡ true
entries-less f n m js h less k lt =
    let entry =
      table-entry f n m (0 + k) (get_or js k 0) (omega (arith, h.one_each))
        (All-get_or (λ j. j < m) js k 0 h.in_range lt) in
    subst (λ e. ltb_ℤ e forbidden_cost ≡ true) entry
      (ground (arith, entry-le (table f n m) 0 0 js k lt))
