-- ===== src/Dispatch/Assign/Bounds.antt =====
-- `hungarian`: the potentials of the last row bound the cost of every choice of columns.
use tt_aiops_platform.Prelude.{
  ℕ, zero, suc, ◌+◌, ◌-◌, ◌≡◌, ◌≤◌, ◌<◌, ◌⊎◌, refl, sym, ap, subst, ◌∙◌, List, [], ◌∷◌, inl, inr,
  Bool-cases, eqb, length, get_or, copies, All, arith,
}
use tt_aiops_platform.Prelude.Int.{ℤ, pos, pos_part, neg_part}
use tt_aiops_platform.Dispatch.Assign.{Hungarian, cell}
use tt_aiops_platform.Dispatch.Assign.Dual.{Leaves, IsCosts}
use tt_aiops_platform.Dispatch.Assign.Placed.{IsPlaced}
use tt_aiops_platform.Dispatch.Assign.Weights.{IsChoice, picked, below-all, below-le, le-below}
use tt_aiops_platform.Dispatch.Assign.Answer.{
  cols, length-cols, row-column, copies-cols, column-row,
}

-- The cost of the columns `js` for the rows from `i` on, counted from 0.
abbrev pub cost_from : List (List ℤ) → ℕ → List ℕ → ℕ
cost_from a i [] = 0
cost_from a i (j ∷ js) = pos_part (get_or (get_or a i []) j (pos 0)) + cost_from a (suc i) js

-- `n` rows of `m` costs that are not negative and at most `c`.
pub record IsMatrix (a : List (List ℤ)) (n m c : ℕ) : Type 0 where
  pub n_rows : length a ≡ n
  pub rows : All (λ r. (length r ≡ m) × All (λ e. (neg_part e ≡ 0) × (pos_part e ≤ c)) r) a

pub All-get_or {ℓ κ} :
    {A : Type ℓ} (P : A → Type κ) (xs : List A) (k : ℕ) (d : A)
    → All P xs
    → k < length xs
    → P (get_or xs k d)
All-get_or P [] k d h lt = absurd (omega arith)
All-get_or P (x ∷ xs) zero d h lt = h.0
All-get_or P (x ∷ xs) (suc k) d h lt = All-get_or P xs k d h.1 (omega arith)

pub All-of-get_or :
    (m : ℕ) (js : List ℕ) → ((k : ℕ) → k < length js → get_or js k 0 < m) → All (λ j. j < m) js
All-of-get_or m [] h = tt
All-of-get_or m (j ∷ js) h =
    (h 0 (omega arith), All-of-get_or m js (λ k lt. h (suc k) (omega arith)))

pub matrix-IsCosts : (a : List (List ℤ)) (n m c : ℕ) → IsMatrix a n m c → IsCosts a n m c
matrix-IsCosts a n m c h = record {
  at_least = λ r x lo hi lox hix. (entry r x lo hi lox hix).0;
  at_most = λ r x lo hi lox hix. (entry r x lo hi lox hix).1;
}
  where
    entry :
        (r x : ℕ)
        → 1 ≤ r
        → r ≤ n
        → 1 ≤ x
        → x ≤ m
        → (neg_part (cell a r x) ≡ 0) × (pos_part (cell a r x) ≤ c)
    entry r x lo hi lox hix =
        let row =
          All-get_or (λ r. (length r ≡ m) × All (λ e. (neg_part e ≡ 0) × (pos_part e ≤ c)) r) a
            (r - 1) [] h.rows (omega (arith, h.n_rows)) in
        All-get_or (λ e. (neg_part e ≡ 0) × (pos_part e ≤ c)) (get_or a (r - 1) []) (x - 1) (pos 0)
          row.1 (omega (arith, row.0))

module _ (a : List (List ℤ)) (n m c : ℕ) (costs : IsCosts a n m c) (h : Hungarian)
    (placed : IsPlaced a n m c n h) where
  abbrev weight : ℕ → ℕ
  weight x = neg_part (get_or h.v (suc x) (pos 0))

  abbrev u_at : ℕ → ℤ
  u_at i = get_or h.u (suc i) (pos 0)

  -- The potentials of as many rows from `i` on as `js` has columns.
  abbrev u_plus : ℕ → List ℕ → ℕ
  u_plus i [] = 0
  u_plus i (j ∷ js) = pos_part (u_at i) + u_plus (suc i) js

  abbrev u_minus : ℕ → List ℕ → ℕ
  u_minus i [] = 0
  u_minus i (j ∷ js) = neg_part (u_at i) + u_minus (suc i) js

  same_rows :
      (i : ℕ) (js ks : List ℕ)
      → length js ≡ length ks
      → (u_plus i js ≡ u_plus i ks) × (u_minus i js ≡ u_minus i ks)
  same_rows i [] [] e = (refl, refl)
  same_rows i [] (k ∷ ks) e = absurd (omega arith)
  same_rows i (j ∷ js) [] e = absurd (omega arith)
  same_rows i (j ∷ js) (k ∷ ks) e = omega (arith, same_rows (suc i) js ks (omega arith))

  cell-suc : (i j : ℕ) → cell a (suc i) (suc j) ≡ get_or (get_or a i []) j (pos 0)
  cell-suc i j =
      ap (λ z. get_or (get_or a z []) (suc j - 1) (pos 0)) (omega arith)
      ∙ ap (λ z. get_or (get_or a i []) z (pos 0)) (omega arith)

  row_parts :
      (i j : ℕ)
      → i < n
      → j < m
      → (neg_part (cell a (suc i) (suc j)) ≡ 0)
        × (pos_part (cell a (suc i) (suc j)) ≡ pos_part (get_or (get_or a i []) j (pos 0)))
        × (pos_part (get_or h.v (suc j) (pos 0)) ≡ 0)
  row_parts i j hi hj = (
    costs.at_least (suc i) (suc j) (omega arith) (omega arith) (omega arith) (omega arith),
    ap pos_part (cell-suc i j),
    placed.dual.v_neg (suc j) (omega arith) (omega arith),
  )

  cost-low :
      (i : ℕ) (js : List ℕ)
      → i + length js ≡ n
      → All (λ j. j < m) js
      → u_plus i js ≤ cost_from a i js + u_minus i js + picked weight js
  cost-low i [] e h2 = omega arith
  cost-low i (j ∷ js) e h2 = omega (
    arith,
    cost-low (suc i) js (omega arith) h2.1,
    row_parts i j (omega arith) h2.0,
    placed.dual.feasible (suc i) (suc j) (omega arith) (omega arith) (omega arith) (omega arith),
  )

  abbrev answer_cols : List ℕ
  answer_cols = cols a n m c h placed

  tight_row :
      (i : ℕ)
      → i < n
      → (get_or answer_cols i 0 < m)
        × Leaves
            (cell a (suc i) (suc (get_or answer_cols i 0)))
            (u_at i)
            (get_or h.v (suc (get_or answer_cols i 0)) (pos 0))
            (pos 0)
  tight_row i lt =
      let (x, lo, hi, row, at_i) = row-column a n m c h placed i lt in
      let col : x ≡ suc (get_or answer_cols i 0) = omega arith in
      (
        omega arith,
        subst (λ y. Leaves (cell a (suc i) y) (u_at i) (get_or h.v y (pos 0)) (pos 0)) col
            (subst (λ r. Leaves (cell a r x) (get_or h.u r (pos 0)) (get_or h.v x (pos 0)) (pos 0))
              row (placed.dual.tight x lo hi (λ z. absurd (omega arith)))),
      )

  cost-cols :
      (i : ℕ) (js : List ℕ)
      → i + length js ≡ n
      → ((k : ℕ) → k < length js → get_or js k 0 ≡ get_or answer_cols (i + k) 0)
      → cost_from a i js + u_minus i js + picked weight js ≡ u_plus i js
  cost-cols i [] e same = omega arith
  cost-cols i (j ∷ js) e same =
      let here : get_or answer_cols i 0 ≡ j =
        ap (λ z. get_or answer_cols z 0) (omega arith) ∙ sym (same 0 (omega arith)) in
      let (lt, tight) = tight_row i (omega arith) in
      let tight_j =
        subst (λ y. Leaves (cell a (suc i) (suc y)) (u_at i) (get_or h.v (suc y) (pos 0)) (pos 0))
          here tight in
      omega (
        arith,
        cost-cols (suc i) js (omega arith)
            (λ k lk. same (suc k) (omega arith) ∙ ap (λ z. get_or answer_cols z 0) (omega arith)),
        row_parts i j (omega arith) (omega (arith, here)),
        tight_j,
      )

  in_range-cols : All (λ j. j < m) answer_cols
  in_range-cols =
      All-of-get_or m answer_cols
        (λ k lt. (tight_row k (omega (arith, length-cols a n m c h placed))).0)

  covered : (j : ℕ) → j < m → (weight j ≡ 0) ⊎ (1 ≤ copies j answer_cols)
  covered j lt = elim (Bool-cases (eqb (get_or h.p (suc j) 0) 0)) [
    | inl e ↦
        inl (ap neg_part (placed.dual.v_free (suc j) (omega arith) (omega arith) (ground arith)))
    | inr e ↦ inr (column-row a n m c h placed j lt (λ z. ground arith))
  ]

  pub cols-IsChoice : IsChoice n m answer_cols
  cols-IsChoice = record {
    one_each = length-cols a n m c h placed;
    in_range = in_range-cols;
    different = copies-cols a n m c h placed;
  }

  pub cols-least : (js : List ℕ) → IsChoice n m js → cost_from a 0 answer_cols ≤ cost_from a 0 js
  cols-least js k = omega (
    arith,
    cost-low 0 js (omega (arith, k.one_each)) k.in_range,
    cost-cols 0 answer_cols (omega (arith, length-cols a n m c h placed))
        (λ z lt. ap (λ y. get_or answer_cols y 0) (omega arith)),
    same_rows 0 js answer_cols (k.one_each ∙ sym (length-cols a n m c h placed)),
    below-all weight m js k.in_range,
    below-all weight m answer_cols in_range-cols,
    below-le weight m js k.different,
    le-below weight m answer_cols (copies-cols a n m c h placed) covered,
  )
