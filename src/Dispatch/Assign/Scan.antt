-- ===== src/Dispatch/Assign/Scan.antt =====
-- What the loop over the columns finds: the least of what the row leaves in the columns not used.
use tt_aiops_platform.Prelude.{
  ap, subst, ℕ, zero, suc, ◌+◌, ◌≡◌, ◌≤◌, ◌<◌, ◌⊎◌, refl, sym, ◌∙◌, Bool, true, false, List, inl,
  inr, Bool-cases, eqb, length, length-set, get_or, get_or-set_same, get_or-set_other, arith,
}
use tt_aiops_platform.Prelude.Int.{ℤ, pos, ◌≤ℤ◌, ◌<ℤ◌}
use tt_aiops_platform.Dispatch.Assign.{Least, reduced, scan_column, scan_columns}

eq_of_eqb : (j x : ℕ) → eqb j x ≡ true → j ≡ x
eq_of_eqb j x h = ground arith

module _ (a : List (List ℤ)) (used : List Bool) (u v : List ℤ) (i0 j0 : ℕ) where
  abbrev minv_at : Least → ℕ → ℤ
  minv_at s x = get_or s.minv x (pos 0)

  abbrev way_at : Least → ℕ → ℕ
  way_at s x = get_or s.way x 0

  -- The entry of a column is the one before, or what the row leaves if that is less.
  abbrev pub IsCloser : Least → Least → ℕ → Type 0
  IsCloser s t x =
      ((minv_at t x ≡ reduced a u v i0 x) × (way_at t x ≡ j0) × (reduced a u v i0 x <ℤ minv_at s x))
      ⊎ ((minv_at t x ≡ minv_at s x)
          × (way_at t x ≡ way_at s x)
          × (minv_at s x ≤ℤ reduced a u v i0 x))

  -- The columns `j, j + 1, ...`, `k` of them, were looked at.
  pub record IsScanned (j k : ℕ) (s t : Least) : Type 0 where
    pub same_minv : length t.minv ≡ length s.minv
    pub same_way : length t.way ≡ length s.way
    pub below : (x : ℕ) → x < j → (minv_at t x ≡ minv_at s x) × (way_at t x ≡ way_at s x)
    pub kept :
        (x : ℕ)
        → get_or used x true ≡ true
        → (minv_at t x ≡ minv_at s x) × (way_at t x ≡ way_at s x)
    pub closer : (x : ℕ) → j ≤ x → x < j + k → get_or used x true ≡ false → IsCloser s t x
    pub least : (x : ℕ) → j ≤ x → x < j + k → get_or used x true ≡ false → t.delta ≤ℤ minv_at t x
    pub no_more : t.delta ≤ℤ s.delta
    pub which :
        ((t.delta ≡ s.delta) × (t.j1 ≡ s.j1))
        ⊎ ((j ≤ t.j1)
            × (t.j1 < j + k)
            × (get_or used t.j1 true ≡ false)
            × (t.delta ≡ minv_at t t.j1))

  -- One column.
  record IsStep (j : ℕ) (s t : Least) : Type 0 where
    step_minv : length t.minv ≡ length s.minv
    step_way : length t.way ≡ length s.way
    others : (x : ℕ) → eqb j x ≡ false → (minv_at t x ≡ minv_at s x) × (way_at t x ≡ way_at s x)
    skipped : get_or used j true ≡ true → t ≡ s
    here : get_or used j true ≡ false → IsCloser s t j × (t.delta ≤ℤ minv_at t j)
    step_more : t.delta ≤ℤ s.delta
    step_which :
        ((t.delta ≡ s.delta) × (t.j1 ≡ s.j1))
        ⊎ ((t.j1 ≡ j) × (get_or used j true ≡ false) × (t.delta ≡ minv_at t j))

  scan_column-IsStep :
      (j : ℕ) (s : Least)
      → j < length s.minv
      → j < length s.way
      → IsStep j s (scan_column a used u v i0 j0 j s)
  unfolding scan_column
  scan_column-IsStep j s h k = ground (
    arith,
    length-set s.minv j (reduced a u v i0 j),
    length-set s.way j j0,
    get_or-set_same s.minv j (reduced a u v i0 j) (pos 0),
    get_or-set_same s.way j j0 0,
    λ (x : ℕ). get_or-set_other s.minv j x (reduced a u v i0 j) (pos 0),
    λ (x : ℕ). get_or-set_other s.way j x j0 0,
  )

  skipped_lem :
      (j x : ℕ) (s t : Least)
      → IsStep j s t
      → get_or used x true ≡ true
      → (minv_at t x ≡ minv_at s x) × (way_at t x ≡ way_at s x)
  skipped_lem j x s t h e = elim (Bool-cases (eqb j x)) [
    | inl q ↦
        let same : j ≡ x = ground arith in
        let eq = h.skipped (subst (λ i. get_or used i true ≡ true) (sym same) e) in
        (ap (λ r. minv_at r x) eq, ap (λ r. way_at r x) eq)
    | inr q ↦ h.others x q
  ]

  closer_lem :
      (s s1 t : Least) (x : ℕ)
      → (minv_at s1 x ≡ minv_at s x) × (way_at s1 x ≡ way_at s x)
      → IsCloser s1 t x
      → IsCloser s t x
  closer_lem s s1 t x (e, w) c = ground (arith, c)

  moved_lem :
      (s s1 t : Least) (x : ℕ)
      → (minv_at t x ≡ minv_at s1 x) × (way_at t x ≡ way_at s1 x)
      → IsCloser s s1 x
      → IsCloser s t x
  moved_lem s s1 t x (e, w) c = ground (arith, c)

  pub scan_columns-IsScanned :
      (j k : ℕ) (s : Least)
      → j + k ≤ length s.minv
      → j + k ≤ length s.way
      → IsScanned j k s (scan_columns a used u v i0 j0 j k s)
  unfolding scan_columns
  scan_columns-IsScanned j zero s h w = record {
    same_minv = refl;
    same_way = refl;
    below = λ x lt. (refl, refl);
    kept = λ x e. (refl, refl);
    closer = λ x lo hi e. absurd (omega arith);
    least = λ x lo hi e. absurd (omega arith);
    no_more = omega arith;
    which = inl (refl, refl);
  }
  scan_columns-IsScanned j (suc k) s h w =
      let s1 = scan_column a used u v i0 j0 j s in
      let t = scan_columns a used u v i0 j0 (suc j) k s1 in
      let step = scan_column-IsStep j s (omega arith) (omega arith) in
      let rest =
        scan_columns-IsScanned (suc j) k s1 (omega (arith, step.step_minv))
          (omega (arith, step.step_way)) in
      let at_j = rest.below j (omega arith) in
      let first : get_or used j true ≡ false → IsCloser s t j × (t.delta ≤ℤ minv_at t j) = λ e.
        let here = step.here e in
        let eq = at_j.0 in (moved_lem s s1 t j at_j here.0, ground (arith, here.1, rest.no_more)) in
      let at_first = λ (x : ℕ) (q : eqb j x ≡ true).
        subst (λ y. get_or used y true ≡ false → IsCloser s t y × (t.delta ≤ℤ minv_at t y))
          (eq_of_eqb j x q) first in
      record {
        same_minv = rest.same_minv ∙ step.step_minv;
        same_way = rest.same_way ∙ step.step_way;
        below = λ x lt. ground (arith, rest.below x, step.others x);
        kept = λ x e. ground (arith, rest.kept x e, skipped_lem j x s s1 step e);
        closer = λ x lo hi e. elim (Bool-cases (eqb j x)) [
          | inl q ↦ (at_first x q e).0
          | inr q ↦
              closer_lem s s1 t x (step.others x q) (rest.closer x (ground arith) (omega arith) e)
        ];
        least = λ x lo hi e. elim (Bool-cases (eqb j x)) [
          | inl q ↦ (at_first x q e).1
          | inr q ↦ rest.least x (ground arith) (omega arith) e
        ];
        no_more = omega (arith, rest.no_more, step.step_more);
        which = ground (arith, rest.which, step.step_which, at_j);
      }
