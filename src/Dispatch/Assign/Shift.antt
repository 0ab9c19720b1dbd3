-- ===== src/Dispatch/Assign/Shift.antt =====
-- What moving the potentials does: columns that are used and the rows in them move by `delta`.
use tt_aiops_platform.Prelude.{
  ℕ, zero, suc, ◌+◌, ◌≡◌, ◌≢◌, ◌≤◌, ◌<◌, refl, sym, ap, subst, ◌∙◌, true, false, List, inl, inr,
  Bool-cases, eqb, length, length-set, get_or, get_or-set_same, get_or-set_other, arith,
}
use tt_aiops_platform.Prelude.Int.{ℤ, pos, ◌+ℤ◌, ◌-ℤ◌}
use tt_aiops_platform.Dispatch.Assign.{Search, shift_column, shift_columns}

module _ (p : List ℕ) (delta : ℤ) where
  abbrev u_at : Search → ℕ → ℤ
  u_at s r = get_or s.u r (pos 0)

  abbrev v_at : Search → ℕ → ℤ
  v_at s x = get_or s.v x (pos 0)

  abbrev minv_at : Search → ℕ → ℤ
  minv_at s x = get_or s.minv x (pos 0)

  abbrev row_at : ℕ → ℕ
  row_at x = get_or p x 0

  -- The columns `j, j + 1, ...`, `k` of them, were moved.
  pub record IsShifted (j k : ℕ) (s t : Search) : Type 0 where
    pub same_used : t.used ≡ s.used
    pub same_way : t.way ≡ s.way
    pub same_u : length t.u ≡ length s.u
    pub same_v : length t.v ≡ length s.v
    pub same_minv : length t.minv ≡ length s.minv
    pub below : (x : ℕ) → x < j → (v_at t x ≡ v_at s x) × (minv_at t x ≡ minv_at s x)
    pub in_used :
        (x : ℕ) → j ≤ x → x < j + k → get_or s.used x true ≡ true → v_at t x ≡ v_at s x -ℤ delta
    pub not_used :
        (x : ℕ)
        → j ≤ x
        → x < j + k
        → get_or s.used x true ≡ false
        → (v_at t x ≡ v_at s x) × (minv_at t x ≡ minv_at s x -ℤ delta)
    pub row_kept :
        (r : ℕ)
        → ((x : ℕ) → j ≤ x → x < j + k → get_or s.used x true ≡ true → row_at x ≢ r)
        → u_at t r ≡ u_at s r
    pub row_moved :
        (r x : ℕ)
        → j ≤ x
        → x < j + k
        → get_or s.used x true ≡ true
        → row_at x ≡ r
        → ((y : ℕ) → j ≤ y → y < j + k → get_or s.used y true ≡ true → row_at y ≡ r → y ≡ x)
        → u_at t r ≡ u_at s r +ℤ delta

  record IsStep (j : ℕ) (s t : Search) : Type 0 where
    step_used : t.used ≡ s.used
    step_way : t.way ≡ s.way
    step_u : length t.u ≡ length s.u
    step_v : length t.v ≡ length s.v
    step_minv : length t.minv ≡ length s.minv
    others : (x : ℕ) → eqb j x ≡ false → (v_at t x ≡ v_at s x) × (minv_at t x ≡ minv_at s x)
    hit : get_or s.used j true ≡ true → v_at t j ≡ v_at s j -ℤ delta
    miss :
        get_or s.used j true ≡ false → (v_at t j ≡ v_at s j) × (minv_at t j ≡ minv_at s j -ℤ delta)
    row_same : get_or s.used j true ≡ false → (r : ℕ) → u_at t r ≡ u_at s r
    row_other : (r : ℕ) → eqb (row_at j) r ≡ false → u_at t r ≡ u_at s r
    row_hit : get_or s.used j true ≡ true → u_at t (row_at j) ≡ u_at s (row_at j) +ℤ delta

  shift_column-IsStep :
      (j : ℕ) (s : Search)
      → j < length s.v
      → j < length s.minv
      → row_at j < length s.u
      → IsStep j s (shift_column p delta j s)
  unfolding shift_column
  shift_column-IsStep j s h k r = ground (
    arith,
    length-set s.minv j (minv_at s j -ℤ delta),
    length-set s.v j (v_at s j -ℤ delta),
    length-set s.u (row_at j) (u_at s (row_at j) +ℤ delta),
    get_or-set_same s.minv j (minv_at s j -ℤ delta) (pos 0),
    get_or-set_same s.v j (v_at s j -ℤ delta) (pos 0),
    get_or-set_same s.u (row_at j) (u_at s (row_at j) +ℤ delta) (pos 0),
    λ (x : ℕ). get_or-set_other s.minv j x (minv_at s j -ℤ delta) (pos 0),
    λ (x : ℕ). get_or-set_other s.v j x (v_at s j -ℤ delta) (pos 0),
    λ (x : ℕ). get_or-set_other s.u (row_at j) x (u_at s (row_at j) +ℤ delta) (pos 0),
  )

  pub shift_columns-IsShifted :
      (j k : ℕ) (s : Search)
      → j + k ≤ length s.v
      → j + k ≤ length s.minv
      → ((x : ℕ) → j ≤ x → x < j + k → row_at x < length s.u)
      → IsShifted j k s (shift_columns p delta j k s)
  unfolding shift_columns
  shift_columns-IsShifted j zero s h w rows = record {
    same_used = refl;
    same_way = refl;
    same_u = refl;
    same_v = refl;
    same_minv = refl;
    below = λ x lt. (refl, refl);
    in_used = λ x lo hi e. absurd (omega arith);
    not_used = λ x lo hi e. absurd (omega arith);
    row_kept = λ r none. refl;
    row_moved = λ r x lo hi e q one. absurd (omega arith);
  }
  shift_columns-IsShifted j (suc k) s h w rows =
      let s1 = shift_column p delta j s in
      let t = shift_columns p delta (suc j) k s1 in
      let step =
        shift_column-IsStep j s (omega arith) (omega arith) (rows j (omega arith) (omega arith)) in
      let rest =
        shift_columns-IsShifted (suc j) k s1 (omega (arith, step.step_v))
          (omega (arith, step.step_minv))
          (λ x lo hi. omega (arith, step.step_u, rows x (omega arith) (omega arith))) in
      let used1 = λ (x : ℕ). ap (λ l. get_or l x true) step.step_used in
      record {
        same_used = rest.same_used ∙ step.step_used;
        same_way = rest.same_way ∙ step.step_way;
        same_u = rest.same_u ∙ step.step_u;
        same_v = rest.same_v ∙ step.step_v;
        same_minv = rest.same_minv ∙ step.step_minv;
        below = λ x lt.
            let later = rest.below x (omega arith) in
            let here = step.others x (ground arith) in (later.0 ∙ here.0, later.1 ∙ here.1);
        in_used = λ x lo hi e. elim (Bool-cases (eqb j x)) [
          | inl q ↦
              subst (λ y. get_or s.used y true ≡ true → v_at t y ≡ v_at s y -ℤ delta) (ground arith)
                (λ e. (rest.below j (omega arith)).0 ∙ step.hit e) e
          | inr q ↦
              rest.in_used x (ground arith) (omega arith) (used1 x ∙ e)
              ∙ ap (λ z. z -ℤ delta) (step.others x q).0
        ];
        not_used = λ x lo hi e. elim (Bool-cases (eqb j x)) [
          | inl q ↦
              subst
                (λ y.
                  get_or s.used y true ≡ false
                  → (v_at t y ≡ v_at s y) × (minv_at t y ≡ minv_at s y -ℤ delta))
                (ground arith)
                (λ e.
                  let later = rest.below j (omega arith) in
                  let here = step.miss e in (later.0 ∙ here.0, later.1 ∙ here.1))
                e
          | inr q ↦
              let later = rest.not_used x (ground arith) (omega arith) (used1 x ∙ e) in
              let here = step.others x q in
              (later.0 ∙ here.0, later.1 ∙ ap (λ z. z -ℤ delta) here.1)
        ];
        row_kept = λ r none.
            rest.row_kept r (λ x lo hi e. none x (omega arith) (omega arith) (sym (used1 x) ∙ e))
            ∙ elim (Bool-cases (get_or s.used j true)) [
              | inl e ↦ step.row_other r (ground (arith, none j (omega arith) (omega arith) e))
              | inr e ↦ step.row_same e r
            ];
        row_moved = λ r x lo hi e q one. elim (Bool-cases (eqb j x)) [
          | inl z ↦
              let eq : j ≡ x = ground arith in
              let row : row_at j ≡ r = ap row_at eq ∙ q in
              rest.row_kept r (λ y lo2 hi2 e2 q2.
                ground (arith, one y (omega arith) (omega arith) (sym (used1 y) ∙ e2) q2))
              ∙ subst (λ y. u_at s1 y ≡ u_at s y +ℤ delta) row
                  (step.row_hit (ap (λ y. get_or s.used y true) eq ∙ e))
          | inr z ↦
              rest.row_moved r x (ground arith) (omega arith) (used1 x ∙ e) q
                (λ y lo2 hi2 e2 q2. one y (omega arith) (omega arith) (sym (used1 y) ∙ e2) q2)
              ∙ ap (λ y. y +ℤ delta)
                  (elim (Bool-cases (get_or s.used j true)) [
                    | inl e2 ↦
                        step.row_other r (ground (arith, one j (omega arith) (omega arith) e2))
                    | inr e2 ↦ step.row_same e2 r
                  ])
        ];
      }
