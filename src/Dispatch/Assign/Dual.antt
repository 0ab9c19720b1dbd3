-- ===== src/Dispatch/Assign/Dual.antt =====
-- The invariants of the search: what the potentials promise, and what is known of the columns reached.
use tt_aiops_platform.Prelude.{
  ℕ, suc, ◌+◌, ◌≡◌, ◌≢◌, ◌≤◌, ◌<◌, ◌⊎◌, Bool, true, false, List, length, get_or,
}
use tt_aiops_platform.Prelude.Int.{ℤ, pos, pos_part, neg_part}
use tt_aiops_platform.Dispatch.Assign.{Search, cell, inf}
use tt_aiops_platform.Dispatch.Assign.Augment.{Leads}
use tt_aiops_platform.Dispatch.Cover.Search.{unseen}

-- The cost `e` less the potentials `u` and `v` is `d`, and is at least `d`.
abbrev pub Leaves : ℤ → ℤ → ℤ → ℤ → Type 0
Leaves e u v d =
    pos_part u + pos_part v + pos_part d + neg_part e
    ≡ pos_part e + neg_part u + neg_part v + neg_part d

abbrev pub LeavesAtLeast : ℤ → ℤ → ℤ → ℤ → Type 0
LeavesAtLeast e u v d =
    pos_part u + pos_part v + pos_part d + neg_part e
    ≤ pos_part e + neg_part u + neg_part v + neg_part d

-- The costs of the `n` rows and `m` columns are not negative and at most `c`.
pub record IsCosts (a : List (List ℤ)) (n m c : ℕ) : Type 0 where
  pub at_least : (r x : ℕ) → 1 ≤ r → r ≤ n → 1 ≤ x → x ≤ m → neg_part (cell a r x) ≡ 0
  pub at_most : (r x : ℕ) → 1 ≤ r → r ≤ n → 1 ≤ x → x ≤ m → pos_part (cell a r x) ≤ c

-- The rows of the columns while the row `i` is placed: it stands in column 0, each other row up to it
-- in one column, and `f` is a column without a row.
pub record IsPlacing (n m i f : ℕ) (p : List ℕ) : Type 0 where
  pub len_p : length p ≡ suc m
  pub row_0 : get_or p 0 0 ≡ i
  pub low_i : 1 ≤ i
  pub high_i : i ≤ n
  pub row_le : (x : ℕ) → x ≤ m → get_or p x 0 ≤ i
  pub inj : (x y : ℕ) → x ≤ m → y ≤ m → get_or p x 0 ≢ 0 → get_or p x 0 ≡ get_or p y 0 → x ≡ y
  pub low_f : 1 ≤ f
  pub high_f : f ≤ m
  pub row_f : get_or p f 0 ≡ 0

module _ (a : List (List ℤ)) (n m i : ℕ) (p : List ℕ) where
  -- The potentials never exceed a cost, meet it in each column that has a row, and those of the
  -- columns are not positive, and 0 without a row.
  pub record IsDual (u v : List ℤ) : Type 0 where
    pub len_u : length u ≡ suc n
    pub len_v : length v ≡ suc m
    pub feasible :
        (r x : ℕ)
        → 1 ≤ r
        → r ≤ n
        → 1 ≤ x
        → x ≤ m
        → LeavesAtLeast (cell a r x) (get_or u r (pos 0)) (get_or v x (pos 0)) (pos 0)
    pub tight :
        (x : ℕ)
        → 1 ≤ x
        → x ≤ m
        → get_or p x 0 ≢ 0
        → Leaves
            (cell a (get_or p x 0) x)
            (get_or u (get_or p x 0) (pos 0))
            (get_or v x (pos 0))
            (pos 0)
    pub v_neg : (x : ℕ) → 1 ≤ x → x ≤ m → pos_part (get_or v x (pos 0)) ≡ 0
    pub v_free : (x : ℕ) → 1 ≤ x → x ≤ m → get_or p x 0 ≡ 0 → get_or v x (pos 0) ≡ pos 0
    pub u_new : (r : ℕ) → i < r → r ≤ n → get_or u r (pos 0) ≡ pos 0

  -- A column that is used.
  abbrev pub InTree : List Bool → ℕ → Type 0
  InTree used x = (x ≤ m) × (get_or used x true ≡ true)

  -- The column `x` was reached from the used column `way[x]`, whose row leaves `d` in it.
  abbrev pub IsReached : List Bool → List ℕ → List ℤ → List ℤ → ℕ → ℤ → Type 0
  IsReached used way u v x d =
      InTree used (get_or way x 0)
      × Leaves (cell a (get_or p (get_or way x 0) 0) x)
          (get_or u (get_or p (get_or way x 0) 0) (pos 0)) (get_or v x (pos 0)) d

  -- A column in the tree or next to it: how it was reached, and at most `h` steps back to column 0.
  pub record IsLinked (used : List Bool) (way : List ℕ) (u v : List ℤ) (h x : ℕ) : Type 0 where
    pub link : x ≢ 0 → IsReached used way u v x (pos 0)
    pub steps : (k : ℕ) × (k + unseen used ≤ h) × Leads (InTree used) way k x

  -- Nothing is used yet.
  pub record IsFirst (s : Search) (j0 : ℕ) : Type 0 where
    pub at_0 : j0 ≡ 0
    pub none_used : (x : ℕ) → x ≤ m → get_or s.used x true ≡ false
    pub u_0 : get_or s.u i (pos 0) ≡ pos 0
    pub all_inf : (x : ℕ) → 1 ≤ x → x ≤ m → get_or s.minv x (pos 0) ≡ inf

  -- Column 0 is used, and every column that is not used was reached.
  pub record IsLater (s : Search) : Type 0 where
    pub root : get_or s.used 0 true ≡ true
    pub reached :
        (x : ℕ)
        → 1 ≤ x
        → x ≤ m
        → get_or s.used x true ≡ false
        → IsReached s.used s.way s.u s.v x (get_or s.minv x (pos 0))

  -- The state of the search before the column `j0` is used; `b` bounds the potentials of the columns
  -- when the search began.
  pub record IsSearch (b : ℕ) (s : Search) (j0 : ℕ) : Type 0 where
    pub dual : IsDual s.u s.v
    pub len_minv : length s.minv ≡ suc m
    pub len_used : length s.used ≡ suc m
    pub len_way : length s.way ≡ suc m
    pub v_low :
        (x : ℕ)
        → 1 ≤ x
        → x ≤ m
        → neg_part (get_or s.v x (pos 0)) ≤ b + pos_part (get_or s.u i (pos 0))
    pub u_pos : neg_part (get_or s.u i (pos 0)) ≡ 0
    pub in_range : j0 ≤ m
    pub not_used : get_or s.used j0 true ≡ false
    pub has_row : (x : ℕ) → InTree s.used x → get_or p x 0 ≢ 0
    pub bound :
        (y x : ℕ)
        → InTree s.used y
        → 1 ≤ x
        → x ≤ m
        → get_or s.used x true ≡ false
        → LeavesAtLeast
            (cell a (get_or p y 0) x)
            (get_or s.u (get_or p y 0) (pos 0))
            (get_or s.v x (pos 0))
            (get_or s.minv x (pos 0))
    pub tree : (x : ℕ) → InTree s.used x → IsLinked s.used s.way s.u s.v m x
    pub tip : IsLinked s.used s.way s.u s.v (suc m) j0
    pub stage : IsFirst s j0 ⊎ IsLater s
