-- ===== src/Dispatch/Assign/Marks.antt =====
-- The state in the middle of a round, when the least entry of the columns not used is known.
use tt_aiops_platform.Prelude.{
  ℕ, zero, suc, ◌+◌, ◌≡◌, ◌≢◌, ◌≤◌, refl, sym, subst, true, false, List, eqb, length, get_or, arith,
}
use tt_aiops_platform.Prelude.Int.{ℤ, pos, negsuc, pos_part, neg_part, ◌≤ℤ◌, ◌-ℤ◌, -ℤ_parts}
use tt_aiops_platform.Dispatch.Assign.{Search, cell}
use tt_aiops_platform.Dispatch.Assign.Augment.{Leads}
use tt_aiops_platform.Dispatch.Assign.Dual.{
  Leaves, LeavesAtLeast, IsDual, InTree, IsLinked, IsLater,
}

pub Leaves-reduced : (e u v : ℤ) → Leaves e u v (e -ℤ u -ℤ v)
Leaves-reduced e u v = omega (arith, -ℤ_parts e u, -ℤ_parts (e -ℤ u) v)

pub not_negative : (d : ℤ) → neg_part d ≤ pos_part d → neg_part d ≡ 0
not_negative (pos k) h = refl
not_negative (negsuc k) h = absurd (omega arith)

pub eq_of_eqb : (j x : ℕ) → eqb j x ≡ true → j ≡ x
eq_of_eqb j x h = ground arith

pub Leads-imp :
    (T S : ℕ → Type 0) (way way' : List ℕ) (k x : ℕ)
    → ((y : ℕ) → T y → S y × (get_or way' y 0 ≡ get_or way y 0))
    → get_or way' x 0 ≡ get_or way x 0
    → Leads T way k x
    → Leads S way' k x
Leads-imp T S way way' zero x f e l = l
Leads-imp T S way way' (suc k) x f e l =
    let (t, same) = f (get_or way x 0) l.1 in
    (
      l.0,
      subst S (sym e) t,
      subst (Leads S way' k) (sym e) (Leads-imp T S way way' k (get_or way x 0) f same l.2),
    )

module _ (a : List (List ℤ)) (n m i : ℕ) (p : List ℕ) where
  -- The state between the two halves of a round, with the least entry and its column.
  pub record IsMarked (b : ℕ) (s : Search) (delta : ℤ) (j1 : ℕ) : Type 0 where
    pub dual : IsDual a n m i p s.u s.v
    pub len_minv : length s.minv ≡ suc m
    pub len_used : length s.used ≡ suc m
    pub len_way : length s.way ≡ suc m
    pub v_low :
        (x : ℕ)
        → 1 ≤ x
        → x ≤ m
        → neg_part (get_or s.v x (pos 0)) ≤ b + pos_part (get_or s.u i (pos 0))
    pub u_pos : neg_part (get_or s.u i (pos 0)) ≡ 0
    pub has_row : (x : ℕ) → InTree a n m i p s.used x → get_or p x 0 ≢ 0
    pub bound :
        (y x : ℕ)
        → InTree a n m i p s.used y
        → 1 ≤ x
        → x ≤ m
        → get_or s.used x true ≡ false
        → LeavesAtLeast
            (cell a (get_or p y 0) x)
            (get_or s.u (get_or p y 0) (pos 0))
            (get_or s.v x (pos 0))
            (get_or s.minv x (pos 0))
    pub tree : (x : ℕ) → InTree a n m i p s.used x → IsLinked a n m i p s.used s.way s.u s.v m x
    pub later : IsLater a n m i p s
    pub delta_pos : neg_part delta ≡ 0
    pub delta_le :
        (x : ℕ) → 1 ≤ x → x ≤ m → get_or s.used x true ≡ false → delta ≤ℤ get_or s.minv x (pos 0)
    pub low_j1 : 1 ≤ j1
    pub high_j1 : j1 ≤ m
    pub j1_not_used : get_or s.used j1 true ≡ false
    pub delta_eq : delta ≡ get_or s.minv j1 (pos 0)
