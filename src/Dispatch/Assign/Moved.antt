-- ===== src/Dispatch/Assign/Moved.antt =====
-- The second half of a round: the potentials move by the least entry, and its column is reached.
use tt_aiops_platform.Prelude.{
  ℕ, zero, suc, ◌+◌, ◌≡◌, ◌≢◌, ◌≤◌, ◌<◌, ◌⊎◌, refl, sym, ap, subst, ◌∙◌, true, false, List, inl,
  inr, Bool-cases, eqb, get_or, arith,
}
use tt_aiops_platform.Prelude.Int.{
  ℤ, pos, negsuc, pos_part, neg_part, ◌+ℤ◌, ◌-ℤ◌, +ℤ_parts, -ℤ_parts,
}
use tt_aiops_platform.Dispatch.Assign.{Search, cell, shift_columns}
use tt_aiops_platform.Dispatch.Assign.Shift.{IsShifted, shift_columns-IsShifted}
use tt_aiops_platform.Dispatch.Assign.Dual.{
  Leaves, LeavesAtLeast, IsPlacing, IsDual, InTree, IsReached, IsSearch,
}
use tt_aiops_platform.Dispatch.Assign.Marks.{IsMarked, not_negative}

not_positive : (d : ℤ) → pos_part d ≤ neg_part d → pos_part d ≡ 0
not_positive (pos k) h = omega arith
not_positive (negsuc k) h = refl

-- Equations of integers as equations of their parts.
abbrev IsSum : ℤ → ℤ → ℤ → Type 0
IsSum z x y = pos_part z + neg_part x + neg_part y ≡ neg_part z + pos_part x + pos_part y

abbrev IsDiff : ℤ → ℤ → ℤ → Type 0
IsDiff z x y = pos_part z + neg_part x + pos_part y ≡ neg_part z + pos_part x + neg_part y

abbrev IsSame : ℤ → ℤ → Type 0
IsSame z x = (pos_part z ≡ pos_part x) × (neg_part z ≡ neg_part x)

IsSum-parts : (z x y : ℤ) → z ≡ x +ℤ y → IsSum z x y
IsSum-parts z x y e = omega (arith, ap pos_part e, ap neg_part e, +ℤ_parts x y)

IsDiff-parts : (z x y : ℤ) → z ≡ x -ℤ y → IsDiff z x y
IsDiff-parts z x y e = omega (arith, ap pos_part e, ap neg_part e, -ℤ_parts x y)

IsSame-parts : (z x : ℤ) → z ≡ x → IsSame z x
IsSame-parts z x e = (ap pos_part e, ap neg_part e)

module _ (a : List (List ℤ)) (n m i : ℕ) (p : List ℕ) (b f : ℕ) (placing : IsPlacing n m i f p)
    (s : Search) (delta : ℤ) (j1 : ℕ) (h : IsMarked a n m i p b s delta j1) where
  abbrev t : Search
  t = shift_columns p delta 0 (suc m) s

  abbrev Used : ℕ → Type 0
  Used = InTree a n m i p s.used

  shifted : IsShifted p delta 0 (suc m) s t
  shifted =
      shift_columns-IsShifted p delta 0 (suc m) s (omega (arith, h.dual.len_v))
        (omega (arith, h.len_minv))
        (λ x lo hi. omega (arith, h.dual.len_u, placing.row_le x (omega arith), placing.high_i))

  -- A row stands in a used column or in none.
  find_row :
      (r k : ℕ)
      → ((x : ℕ) × (x < k) × (get_or s.used x true ≡ true) × (get_or p x 0 ≡ r))
        ⊎ ((x : ℕ) → x < k → get_or s.used x true ≡ true → get_or p x 0 ≢ r)
  find_row r zero = inr (λ x lt. absurd (omega arith))
  find_row r (suc k) = elim (find_row r k) [
    | inl (x, lt, e, q) ↦ inl (x, omega arith, e, q)
    | inr none ↦ elim (Bool-cases (get_or s.used k true)) [
      | inl e ↦ elim (Bool-cases (eqb (get_or p k 0) r)) [
        | inl q ↦ inl (k, omega arith, e, ground arith)
        | inr q ↦ inr (λ x lt ex ex2. ground (arith, none x))
      ]
      | inr e ↦ inr (λ x lt ex ex2. ground (arith, none x))
    ]
  ]

  u_hit :
      (x : ℕ)
      → Used x
      → get_or t.u (get_or p x 0) (pos 0) ≡ get_or s.u (get_or p x 0) (pos 0) +ℤ delta
  u_hit x (le, e) =
      shifted.row_moved (get_or p x 0) x (omega arith) (omega arith) e refl
        (λ y lo hi e2 q. placing.inj y x (omega arith) le (h.has_row y (omega arith, e2)) q)

  u_same :
      (r : ℕ)
      → ((x : ℕ) → x < suc m → get_or s.used x true ≡ true → get_or p x 0 ≢ r)
      → get_or t.u r (pos 0) ≡ get_or s.u r (pos 0)
  u_same r none = shifted.row_kept r (λ x lo hi e. none x (omega arith) e)

  v_hit : (x : ℕ) → Used x → get_or t.v x (pos 0) ≡ get_or s.v x (pos 0) -ℤ delta
  v_hit x (le, e) = shifted.in_used x (omega arith) (omega arith) e

  v_miss :
      (x : ℕ)
      → x ≤ m
      → get_or s.used x true ≡ false
      → (get_or t.v x (pos 0) ≡ get_or s.v x (pos 0))
        × (get_or t.minv x (pos 0) ≡ get_or s.minv x (pos 0) -ℤ delta)
  v_miss x le e = shifted.not_used x (omega arith) (omega arith) e

  u_hit_parts :
      (x : ℕ)
      → Used x
      → IsSum (get_or t.u (get_or p x 0) (pos 0)) (get_or s.u (get_or p x 0) (pos 0)) delta
  u_hit_parts x k =
      IsSum-parts (get_or t.u (get_or p x 0) (pos 0)) (get_or s.u (get_or p x 0) (pos 0)) delta
        (u_hit x k)

  v_hit_parts : (x : ℕ) → Used x → IsDiff (get_or t.v x (pos 0)) (get_or s.v x (pos 0)) delta
  v_hit_parts x k = IsDiff-parts (get_or t.v x (pos 0)) (get_or s.v x (pos 0)) delta (v_hit x k)

  v_miss_parts :
      (x : ℕ)
      → x ≤ m
      → get_or s.used x true ≡ false
      → IsSame (get_or t.v x (pos 0)) (get_or s.v x (pos 0))
        × IsDiff (get_or t.minv x (pos 0)) (get_or s.minv x (pos 0)) delta
  v_miss_parts x le e = (
    IsSame-parts (get_or t.v x (pos 0)) (get_or s.v x (pos 0)) (v_miss x le e).0,
    IsDiff-parts (get_or t.minv x (pos 0)) (get_or s.minv x (pos 0)) delta (v_miss x le e).1,
  )

  feasible1 :
      (r x : ℕ)
      → 1 ≤ r
      → r ≤ n
      → 1 ≤ x
      → x ≤ m
      → LeavesAtLeast (cell a r x) (get_or t.u r (pos 0)) (get_or t.v x (pos 0)) (pos 0)
  feasible1 r x lo_r hi_r lo hi = elim (find_row r (suc m)) [
    | inl (y, lt, e, q) ↦
        let k : Used y = (omega arith, e) in
        subst
          (λ z. LeavesAtLeast (cell a z x) (get_or t.u z (pos 0)) (get_or t.v x (pos 0)) (pos 0)) q
          (let low = h.dual.feasible (get_or p y 0) x (omega (arith, q)) (omega (arith, q)) lo hi in
            elim (Bool-cases (get_or s.used x true)) [
              | inl ex ↦ omega (arith, low, u_hit_parts y k, v_hit_parts x (hi, ex))
              | inr ex ↦ omega (
                arith,
                u_hit_parts y k,
                v_miss_parts x hi ex,
                h.bound y x k lo hi ex,
                h.delta_le x lo hi ex,
                h.delta_pos,
              )
            ])
    | inr none ↦
        let same = IsSame-parts (get_or t.u r (pos 0)) (get_or s.u r (pos 0)) (u_same r none) in
        let low = h.dual.feasible r x lo_r hi_r lo hi in
        elim (Bool-cases (get_or s.used x true)) [
          | inl ex ↦ omega (arith, low, same, v_hit_parts x (hi, ex), h.delta_pos)
          | inr ex ↦ omega (arith, low, same, v_miss_parts x hi ex)
        ]
  ]

  tight1 :
      (x : ℕ)
      → 1 ≤ x
      → x ≤ m
      → get_or p x 0 ≢ 0
      → Leaves
          (cell a (get_or p x 0) x)
          (get_or t.u (get_or p x 0) (pos 0))
          (get_or t.v x (pos 0))
          (pos 0)
  tight1 x lo hi row = elim (Bool-cases (get_or s.used x true)) [
    | inl e ↦ omega (arith, h.dual.tight x lo hi row, u_hit_parts x (hi, e), v_hit_parts x (hi, e))
    | inr e ↦
        let same =
          IsSame-parts (get_or t.u (get_or p x 0) (pos 0)) (get_or s.u (get_or p x 0) (pos 0))
            (u_same (get_or p x 0) (λ y lt used_y q. other y lt used_y q e)) in
        omega (arith, h.dual.tight x lo hi row, same, v_miss_parts x hi e)
  ]
    where
      other :
          (y : ℕ)
          → y < suc m
          → get_or s.used y true ≡ true
          → get_or p y 0 ≡ get_or p x 0
          → get_or s.used x true ≡ false
          → ⊥
      other y lt used_y q e =
          let same = placing.inj y x (omega arith) hi (h.has_row y (omega arith, used_y)) q in
          ground (arith, ap (λ z. get_or s.used z true) same)

  dual1 : IsDual a n m i p t.u t.v
  dual1 = record {
    len_u = shifted.same_u ∙ h.dual.len_u;
    len_v = shifted.same_v ∙ h.dual.len_v;
    feasible = feasible1;
    tight = tight1;
    v_neg = λ x lo hi. elim (Bool-cases (get_or s.used x true)) [
      | inl e ↦
          not_positive (get_or t.v x (pos 0))
            (omega (arith, h.dual.v_neg x lo hi, v_hit_parts x (hi, e), h.delta_pos))
      | inr e ↦ omega (arith, h.dual.v_neg x lo hi, v_miss_parts x hi e)
    ];
    v_free = λ x lo hi q. elim (Bool-cases (get_or s.used x true)) [
      | inl e ↦ absurd (h.has_row x (hi, e) q)
      | inr e ↦ (v_miss x hi e).0 ∙ h.dual.v_free x lo hi q
    ];
    u_new = λ r lo hi.
        u_same r (λ x lt e q. absurd (omega (arith, placing.row_le x (omega arith))))
        ∙ h.dual.u_new r lo hi;
  }

  root_parts : IsSum (get_or t.u i (pos 0)) (get_or s.u i (pos 0)) delta
  root_parts =
      subst (λ r. IsSum (get_or t.u r (pos 0)) (get_or s.u r (pos 0)) delta) placing.row_0
        (u_hit_parts 0 (omega arith, h.later.root))

  u_pos1 : neg_part (get_or t.u i (pos 0)) ≡ 0
  u_pos1 = not_negative (get_or t.u i (pos 0)) (omega (arith, root_parts, h.u_pos, h.delta_pos))

  v_low1 :
      (x : ℕ)
      → 1 ≤ x
      → x ≤ m
      → neg_part (get_or t.v x (pos 0)) ≤ b + pos_part (get_or t.u i (pos 0))
  v_low1 x lo hi = elim (Bool-cases (get_or s.used x true)) [
    | inl e ↦ omega (
      arith,
      h.v_low x lo hi,
      v_hit_parts x (hi, e),
      dual1.v_neg x lo hi,
      h.dual.v_neg x lo hi,
      h.delta_pos,
      root_parts,
      u_pos1,
      h.u_pos,
    )
    | inr e ↦
        omega
          (arith, h.v_low x lo hi, v_miss_parts x hi e, root_parts, u_pos1, h.u_pos, h.delta_pos)
  ]

  -- A column reached stays so; what its row leaves falls by `delta` if it is not used.
  link_used :
      (x : ℕ)
      → Used x
      → IsReached a n m i p s.used s.way s.u s.v x (pos 0)
      → IsReached a n m i p s.used s.way t.u t.v x (pos 0)
  link_used x k (from, leaves) =
      (from, omega (arith, leaves, u_hit_parts (get_or s.way x 0) from, v_hit_parts x k))

  link_unused :
      (x : ℕ) (d d' : ℤ)
      → x ≤ m
      → get_or s.used x true ≡ false
      → IsDiff d' d delta
      → IsReached a n m i p s.used s.way s.u s.v x d
      → IsReached a n m i p s.used s.way t.u t.v x d'
  link_unused x d d' le e q (from, leaves) =
      (from, omega (arith, leaves, u_hit_parts (get_or s.way x 0) from, v_miss_parts x le e))

  -- The state with the parts that did not move.
  abbrev moved : Search
  moved = record { minv = t.minv; used = s.used; way = s.way; u = t.u; v = t.v }

  moved-IsSearch : IsSearch a n m i p b moved j1
  moved-IsSearch =
      let at_j1 = h.later.reached j1 h.low_j1 h.high_j1 h.j1_not_used in
      record {
        dual = dual1;
        len_minv = shifted.same_minv ∙ h.len_minv;
        len_used = h.len_used;
        len_way = h.len_way;
        v_low = v_low1;
        u_pos = u_pos1;
        in_range = h.high_j1;
        not_used = h.j1_not_used;
        has_row = h.has_row;
        bound = λ y x k lo hi e.
            omega (arith, h.bound y x k lo hi e, u_hit_parts y k, v_miss_parts x hi e, h.delta_pos);
        tree = λ x k. record {
          link = λ other. link_used x k ((h.tree x k).link other);
          steps = (h.tree x k).steps;
        };
        tip = record {
          link = λ other.
              link_unused j1 (get_or s.minv j1 (pos 0)) (pos 0) h.high_j1 h.j1_not_used
                (omega (arith, IsSame-parts delta (get_or s.minv j1 (pos 0)) h.delta_eq)) at_j1;
          steps =
              let (k, le, leads) = (h.tree (get_or s.way j1 0) at_j1.0).steps in
              (suc k, omega arith, ((λ z. absurd (omega (arith, h.low_j1))), at_j1.0, leads));
        };
        stage = inr (record {
          root = h.later.root;
          reached = λ x lo hi e.
              link_unused x (get_or s.minv x (pos 0)) (get_or t.minv x (pos 0)) hi e
                (v_miss_parts x hi e).1 (h.later.reached x lo hi e);
        });
      }

  moved_eq : moved ≡ t
  moved_eq = sym (
      ap (λ l. record { minv = t.minv; used = l; way = t.way; u = t.u; v = t.v }) shifted.same_used
      ∙ ap (λ l. record { minv = t.minv; used = s.used; way = l; u = t.u; v = t.v })
          shifted.same_way)

  pub shifted-IsSearch : IsSearch a n m i p b t j1
  shifted-IsSearch = subst (λ z. IsSearch a n m i p b z j1) moved_eq moved-IsSearch

  pub shifted-used : t.used ≡ s.used
  shifted-used = shifted.same_used
