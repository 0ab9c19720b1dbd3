-- ===== src/Dispatch/Assign/Marked.antt =====
-- The first half of a round: the column `j0` is used, and the others are looked at from its row.
use tt_aiops_platform.Prelude.{
  ℕ, suc, ◌+◌, ◌≡◌, ◌≢◌, ◌≤◌, ◌<◌, ◌⊎◌, sym, ap, subst, ◌∙◌, Bool, true, false, List, inl, inr,
  Bool-cases, eqb, length-set, get_or, get_or-set_same, get_or-set_other, set, arith,
}
use tt_aiops_platform.Prelude.Int.{ℤ, pos, pos_part, neg_part, ◌≤ℤ◌, ◌<ℤ◌}
use tt_aiops_platform.Dispatch.Cover.Search.{unseen, unseen-set}
use tt_aiops_platform.Dispatch.Assign.{Search, Least, cell, reduced, inf, scan_columns}
use tt_aiops_platform.Dispatch.Assign.Scan.{IsScanned, scan_columns-IsScanned}
use tt_aiops_platform.Dispatch.Assign.Dual.{
  Leaves, LeavesAtLeast, IsCosts, IsPlacing, InTree, IsReached, IsLinked, IsFirst, IsSearch,
}
use tt_aiops_platform.Dispatch.Assign.Marks.{
  Leaves-reduced, not_negative, eq_of_eqb, Leads-imp, IsMarked,
}

module _ (a : List (List ℤ)) (n m i : ℕ) (p : List ℕ) where
  module _ (c b f : ℕ) (costs : IsCosts a n m c) (placing : IsPlacing n m i f p)
      (small : b + c < 2305843009213693951) (s : Search) (j0 : ℕ) (h : IsSearch a n m i p b s j0)
      (row : get_or p j0 0 ≢ 0) where
    abbrev i0 : ℕ
    i0 = get_or p j0 0

    abbrev used1 : List Bool
    used1 = set s.used j0 true

    abbrev pub found : Least
    found =
        scan_columns a used1 s.u s.v i0 j0 1 m
          (record { minv = s.minv; way = s.way; delta = inf; j1 = 0 })

    abbrev pub marked : Search
    marked = record { minv = found.minv; used = used1; way = found.way; u = s.u; v = s.v }

    scanned :
        IsScanned a used1 s.u s.v i0 j0 1 m
          (record { minv = s.minv; way = s.way; delta = inf; j1 = 0 })
          found
    scanned =
        scan_columns-IsScanned a used1 s.u s.v i0 j0 1 m
          (record { minv = s.minv; way = s.way; delta = inf; j1 = 0 }) (omega (arith, h.len_minv))
          (omega (arith, h.len_way))

    used1-tip : get_or used1 j0 true ≡ true
    used1-tip = get_or-set_same s.used j0 true true (omega (arith, h.len_used, h.in_range))

    used1-cases : (x : ℕ) → get_or used1 x true ≡ true → (j0 ≡ x) ⊎ (get_or s.used x true ≡ true)
    used1-cases x e = elim (Bool-cases (eqb j0 x)) [
      | inl q ↦ inl (eq_of_eqb j0 x q)
      | inr q ↦ inr (sym (get_or-set_other s.used j0 x true true q) ∙ e)
    ]

    unused1 : (x : ℕ) → get_or used1 x true ≡ false → get_or s.used x true ≡ false
    unused1 x e = elim (Bool-cases (eqb j0 x)) [
      | inl q ↦ absurd (ground (arith, used1-tip, ap (λ y. get_or used1 y true) (eq_of_eqb j0 x q)))
      | inr q ↦ sym (get_or-set_other s.used j0 x true true q) ∙ e
    ]

    grows : (x : ℕ) → InTree a n m i p s.used x → InTree a n m i p used1 x
    grows x (le, e) = (
      le,
      elim (Bool-cases (eqb j0 x)) [
        | inl q ↦ subst (λ y. get_or used1 y true ≡ true) (eq_of_eqb j0 x q) used1-tip
        | inr q ↦ get_or-set_other s.used j0 x true true q ∙ e
      ],
    )

    has_row1 : (x : ℕ) → InTree a n m i p used1 x → get_or p x 0 ≢ 0
    has_row1 x (le, e) = elim (used1-cases x e) [
      | inl q ↦ subst (λ y. get_or p y 0 ≢ 0) q row
      | inr old ↦ h.has_row x (le, old)
    ]

    fewer : suc (unseen used1) ≡ unseen s.used
    fewer = unseen-set j0 s.used h.not_used

    kept_way : (x : ℕ) → InTree a n m i p used1 x → get_or found.way x 0 ≡ get_or s.way x 0
    kept_way x t = (scanned.kept x t.1).1

    tree1 : (x : ℕ) → InTree a n m i p used1 x → IsLinked a n m i p used1 found.way s.u s.v m x
    tree1 x t = elim (used1-cases x t.1) [
      | inl q ↦
          relink x t (suc m) (subst (IsLinked a n m i p s.used s.way s.u s.v (suc m)) q h.tip)
            (omega arith)
      | inr old ↦ relink x t m (h.tree x (t.0, old)) (omega arith)
    ]
      where
        relink :
            (x : ℕ)
            → InTree a n m i p used1 x
            → (k : ℕ) → IsLinked a n m i p s.used s.way s.u s.v k x
            → k ≤ suc m
            → IsLinked a n m i p used1 found.way s.u s.v m x
        relink x t k l le = record {
          link = λ other.
              let (old, leaves) = l.link other in
              subst
                (λ w.
                  InTree a n m i p used1 w
                  × Leaves (cell a (get_or p w 0) x) (get_or s.u (get_or p w 0) (pos 0))
                      (get_or s.v x (pos 0)) (pos 0))
                (sym (kept_way x t)) (grows (get_or s.way x 0) old, leaves);
          steps =
              let (k2, le2, leads) = l.steps in
              (
                k2,
                omega (arith, fewer),
                Leads-imp (InTree a n m i p s.used) (InTree a n m i p used1) s.way found.way k2 x
                    (λ y ty. (grows y ty, kept_way y (grows y ty))) (kept_way x t) leads,
              );
        }

    -- The new entry is at most the old one and at most what the row leaves.
    lowered :
        (x : ℕ)
        → 1 ≤ x
        → x ≤ m
        → get_or used1 x true ≡ false
        → (get_or found.minv x (pos 0) ≤ℤ get_or s.minv x (pos 0))
          × (get_or found.minv x (pos 0) ≤ℤ reduced a s.u s.v i0 x)
    lowered x lo hi e = ground (arith, scanned.closer x lo (omega arith) e)

    at_least_mono : (e u v d d' : ℤ) → d ≤ℤ d' → LeavesAtLeast e u v d' → LeavesAtLeast e u v d
    at_least_mono e u v d d' le l = omega arith

    bound1 :
        (y x : ℕ)
        → InTree a n m i p used1 y
        → 1 ≤ x
        → x ≤ m
        → get_or used1 x true ≡ false
        → LeavesAtLeast
            (cell a (get_or p y 0) x)
            (get_or s.u (get_or p y 0) (pos 0))
            (get_or s.v x (pos 0))
            (get_or found.minv x (pos 0))
    bound1 y x (le, t) lo hi e = elim (used1-cases y t) [
      | inl q ↦
          subst
            (λ z.
              LeavesAtLeast (cell a (get_or p z 0) x) (get_or s.u (get_or p z 0) (pos 0))
                (get_or s.v x (pos 0)) (get_or found.minv x (pos 0)))
            q
            (omega (
              arith,
              (lowered x lo hi e).1,
              Leaves-reduced (cell a i0 x) (get_or s.u i0 (pos 0)) (get_or s.v x (pos 0)),
            ))
      | inr old ↦ omega (arith, (lowered x lo hi e).0, h.bound y x (le, old) lo hi (unused1 x e))
    ]

    -- At first what the row leaves is less than `inf`.
    first_less :
        (x : ℕ)
        → IsFirst a n m i p s j0
        → 1 ≤ x
        → x ≤ m
        → reduced a s.u s.v i0 x <ℤ get_or s.minv x (pos 0)
    first_less x z lo hi =
        let is_i : i0 ≡ i = ap (λ y. get_or p y 0) z.at_0 ∙ placing.row_0 in
        let at_most = costs.at_most i x placing.low_i placing.high_i lo hi in
        let low = h.v_low x lo hi in
        subst (λ r. reduced a s.u s.v r x <ℤ get_or s.minv x (pos 0)) (sym is_i)
          (subst (λ d. reduced a s.u s.v i x <ℤ d) (sym (z.all_inf x lo hi))
            (omega (
              arith,
              at_most,
              low,
              ap pos_part z.u_0,
              ap neg_part z.u_0,
              Leaves-reduced (cell a i x) (get_or s.u i (pos 0)) (get_or s.v x (pos 0)),
            )))

    reached1 :
        (x : ℕ)
        → 1 ≤ x
        → x ≤ m
        → get_or used1 x true ≡ false
        → IsReached a n m i p used1 found.way s.u s.v x (get_or found.minv x (pos 0))
    reached1 x lo hi e = elim (scanned.closer x lo (omega arith) e) [
      | inl (eq, w, less) ↦
          subst
            (λ z.
              InTree a n m i p used1 z
              × Leaves (cell a (get_or p z 0) x) (get_or s.u (get_or p z 0) (pos 0))
                  (get_or s.v x (pos 0)) (get_or found.minv x (pos 0)))
            (sym w)
            (
              (h.in_range, used1-tip),
              subst (Leaves (cell a i0 x) (get_or s.u i0 (pos 0)) (get_or s.v x (pos 0))) (sym eq)
                  (Leaves-reduced (cell a i0 x) (get_or s.u i0 (pos 0)) (get_or s.v x (pos 0))),
            )
      | inr (eq, w, more) ↦ elim h.stage [
        | inl z ↦ absurd (omega (arith, first_less x z lo hi, more))
        | inr l ↦
            let (old, leaves) = l.reached x lo hi (unused1 x e) in
            subst
              (λ z.
                InTree a n m i p used1 z
                × Leaves (cell a (get_or p z 0) x) (get_or s.u (get_or p z 0) (pos 0))
                    (get_or s.v x (pos 0)) (get_or found.minv x (pos 0)))
              (sym w)
              (
                grows (get_or s.way x 0) old,
                subst
                    (Leaves (cell a (get_or p (get_or s.way x 0) 0) x)
                      (get_or s.u (get_or p (get_or s.way x 0) 0) (pos 0)) (get_or s.v x (pos 0)))
                    (sym eq) leaves,
              )
      ]
    ]

    root1 : get_or used1 0 true ≡ true
    root1 = elim h.stage [
      | inl z ↦ subst (λ y. get_or used1 y true ≡ true) z.at_0 used1-tip
      | inr l ↦ (grows 0 (omega arith, l.root)).1
    ]

    free_unused : get_or used1 f true ≡ false
    free_unused = elim (Bool-cases (get_or used1 f true)) [
      | inl t ↦ absurd (has_row1 f (placing.high_f, t) placing.row_f)
      | inr e ↦ e
    ]

    -- The free column keeps the least entry below `inf`.
    free_less : get_or found.minv f (pos 0) <ℤ inf
    free_less =
        let low = bound1 0 f (omega arith, root1) placing.low_f placing.high_f free_unused in
        let low_i =
          subst
            (λ r.
              LeavesAtLeast (cell a r f) (get_or s.u r (pos 0)) (get_or s.v f (pos 0))
                (get_or found.minv f (pos 0)))
            placing.row_0 low in
        omega (
          arith,
          low_i,
          h.u_pos,
          ap pos_part (h.dual.v_free f placing.low_f placing.high_f placing.row_f),
          ap neg_part (h.dual.v_free f placing.low_f placing.high_f placing.row_f),
          costs.at_most i f placing.low_i placing.high_i placing.low_f placing.high_f,
        )

    found_j1 :
        (1 ≤ found.j1)
        × (found.j1 ≤ m)
        × (get_or used1 found.j1 true ≡ false)
        × (found.delta ≡ get_or found.minv found.j1 (pos 0))
    found_j1 = elim scanned.which [
      | inl (e, z) ↦ absurd (
          omega (
            arith,
            free_less,
            ap pos_part e,
            ap neg_part e,
            scanned.least f placing.low_f (omega (arith, placing.high_f)) free_unused,
          ))
      | inr (lo, hi, e, d) ↦ (lo, omega arith, e, d)
    ]

    row_in_range : (x : ℕ) → InTree a n m i p used1 x → (1 ≤ get_or p x 0) × (get_or p x 0 ≤ n)
    row_in_range x t =
        (ground (arith, has_row1 x t), omega (arith, placing.row_le x t.0, placing.high_i))

    delta_not_negative : neg_part found.delta ≡ 0
    delta_not_negative =
        let (lo, hi, e, d) = found_j1 in
        let (from, leaves) = reached1 found.j1 lo hi e in
        let range = row_in_range (get_or found.way found.j1 0) from in
        not_negative found.delta (
          omega (
            arith,
            ap pos_part d,
            ap neg_part d,
            leaves,
            h.dual.feasible (get_or p (get_or found.way found.j1 0) 0) found.j1 range.0 range.1 lo
                hi,
          ))

    pub marked-IsMarked : IsMarked a n m i p b marked found.delta found.j1
    marked-IsMarked = record {
      dual = h.dual;
      len_minv = scanned.same_minv ∙ h.len_minv;
      len_used = length-set s.used j0 true ∙ h.len_used;
      len_way = scanned.same_way ∙ h.len_way;
      v_low = h.v_low;
      u_pos = h.u_pos;
      has_row = has_row1;
      bound = bound1;
      tree = tree1;
      later = record { root = root1; reached = reached1 };
      delta_pos = delta_not_negative;
      delta_le = λ x lo hi e. scanned.least x lo (omega arith) e;
      low_j1 = found_j1.0;
      high_j1 = found_j1.1;
      j1_not_used = found_j1.2;
      delta_eq = found_j1.3;
    }

    pub marked-fewer : suc (unseen used1) ≡ unseen s.used
    marked-fewer = fewer
