-- ===== src/Dispatch/Assign/Slots/Least.antt =====
-- The table of costs: each entry is the least cost of the edges of its pair.
use tt_aiops_platform.Prelude.{
  ℕ, ◌≡◌, ◌<◌, ◌⊎◌, refl, sym, ap, subst, ◌∙◌, true, some, List, [], ◌∷◌, inl, inr, Bool-cases,
  if◌then◌else◌, ltb, unwrap_or, Any, arith, pair_eq, pair_beq, pair_beq_iff,
}
use tt_aiops_platform.Prelude.Maps
use tt_aiops_platform.Prelude.Int.{ℤ, min_ℤ, ◌≤ℤ◌}
use tt_aiops_platform.Dispatch.Cover.{Edge}
use tt_aiops_platform.Dispatch.Assign.Slots.{Costs, add_cost, add_costs}

-- An edge joins the truck and the work at this cost.
abbrev pub Joins : ℕ → ℕ → ℤ → List Edge → Type 0
Joins t w c edges = Any (λ e. (e.0 ≡ t) × (e.1 ≡ w) × (e.2 ≡ c)) edges

lookup-add_cost :
    (n t w : ℕ) (e : Edge) (cost : Costs) (c : ℤ)
    → Maps.lookup (t, w) (add_cost n e cost) ≡ some c
    → (Maps.lookup (t, w) cost ≡ some c) ⊎ ((t < n) × (e.0 ≡ t) × (e.1 ≡ w) × (e.2 ≡ c))
unfolding add_cost
lookup-add_cost n t w (t', w', c') cost c h = ground (
  arith,
  Maps.lookup-insert (t', w') (t, w) (min_ℤ (unwrap_or (Maps.lookup (t', w') cost) c') c') cost,
  pair_beq_iff (t', w') (t, w),
)

pub lookup-add_costs :
    (n t w : ℕ) (edges : List Edge) (cost : Costs) (c : ℤ)
    → Maps.lookup (t, w) (add_costs n edges cost) ≡ some c
    → (Maps.lookup (t, w) cost ≡ some c) ⊎ ((t < n) × Joins t w c edges)
unfolding add_costs
lookup-add_costs n t w [] cost c h = inl h
lookup-add_costs n t w (e ∷ edges) cost c h =
    ground
      (arith, lookup-add_costs n t w edges (add_cost n e cost) c, lookup-add_cost n t w e cost c)

-- The entry of a pair is at most a cost.
abbrev pub CostsAtMost : ℕ → ℕ → ℤ → Costs → Type 0
CostsAtMost t w c cost = (d : ℤ) × (Maps.lookup (t, w) cost ≡ some d) × (d ≤ℤ c)

add_cost-kept :
    (n t w : ℕ) (e : Edge) (cost : Costs) (c : ℤ)
    → CostsAtMost t w c cost
    → CostsAtMost t w c (add_cost n e cost)
unfolding add_cost
add_cost-kept n t w (t', w', c') cost c (d, q, le) = elim (Bool-cases (ltb t' n)) [
  | inr z ↦ (d, rw z q, le)
  | inl z ↦
      let v = min_ℤ (unwrap_or (Maps.lookup (t', w') cost) c') c' in
      let eq = Maps.lookup-insert (t', w') (t, w) v cost in
      elim (Bool-cases (pair_beq (t', w') (t, w))) [
        | inl same ↦
            let keys = (pair_beq_iff (t', w') (t, w)).0 same in
            let old : Maps.lookup (t', w') cost ≡ some d = ap (λ k. Maps.lookup k cost) keys ∙ q in
            (
              v,
              rw z (eq ∙ ap (λ b. if b then some v else Maps.lookup (t, w) cost) same),
              subst (λ o. min_ℤ (unwrap_or o c') c' ≤ℤ c) (sym old) (ground arith),
            )
        | inr other ↦
            (d, rw z (eq ∙ ap (λ b. if b then some v else Maps.lookup (t, w) cost) other ∙ q), le)
      ]
]

add_costs-kept :
    (n t w : ℕ) (edges : List Edge) (cost : Costs) (c : ℤ)
    → CostsAtMost t w c cost
    → CostsAtMost t w c (add_costs n edges cost)
unfolding add_costs
add_costs-kept n t w [] cost c h = h
add_costs-kept n t w (e ∷ edges) cost c h =
    add_costs-kept n t w edges (add_cost n e cost) c (add_cost-kept n t w e cost c h)

add_cost-here :
    (n : ℕ) (e : Edge) (cost : Costs) → e.0 < n → CostsAtMost e.0 e.1 e.2 (add_cost n e cost)
unfolding add_cost
add_cost-here n (t, w, c) cost lt =
    let v = min_ℤ (unwrap_or (Maps.lookup (t, w) cost) c) c in
    let z : ltb t n ≡ true = ground arith in
    let same : pair_beq (t, w) (t, w) ≡ true = (pair_beq_iff (t, w) (t, w)).1 refl in
    (
      v,
      rw z (
          Maps.lookup-insert (t, w) (t, w) v cost
          ∙ ap (λ b. if b then some v else Maps.lookup (t, w) cost) same),
      ground arith,
    )

pub add_costs-AtMost :
    (n t w : ℕ) (edges : List Edge) (cost : Costs) (c : ℤ)
    → t < n
    → Joins t w c edges
    → CostsAtMost t w c (add_costs n edges cost)
unfolding add_costs
add_costs-AtMost n t w [] cost c lt j = absurd j
add_costs-AtMost n t w (e ∷ edges) cost c lt (inl (q0, q1, q2)) =
    let here = add_cost-here n e cost (omega arith) in
    add_costs-kept n t w edges (add_cost n e cost) c (
      subst (λ x. CostsAtMost t w x (add_cost n e cost)) q2
        (subst (λ x. CostsAtMost t x e.2 (add_cost n e cost)) q1
          (subst (λ x. CostsAtMost x e.1 e.2 (add_cost n e cost)) q0 here)))
add_costs-AtMost n t w (e ∷ edges) cost c lt (inr j) =
    add_costs-AtMost n t w edges (add_cost n e cost) c lt j
