-- ===== src/Dispatch/Assign/Optimal.antt =====
-- What `hungarian` promises: every row gets a column of its own, and no other choice costs less.
use tt_aiops_platform.Prelude.{
  ℕ, suc, ◌*◌, ◌≡◌, ◌≤◌, ◌<◌, refl, ap, ◌∙◌, true, false, Option, none, some, List, [], ◌∷◌, eqb,
  leb, if◌then◌else◌, length, length-replicate, get_or, replicate, copies-replicate, arith,
}
use tt_aiops_platform.Prelude.Int.{ℤ, pos, pos_part, neg_part}
use tt_aiops_platform.Dispatch.Assign.{Hungarian, place_rows, answer, hungarian}
use tt_aiops_platform.Dispatch.Assign.Dual.{IsCosts}
use tt_aiops_platform.Dispatch.Assign.Placed.{IsPlaced, place_rows-IsPlaced, get_or-replicate}
use tt_aiops_platform.Dispatch.Assign.Weights.{IsChoice}
use tt_aiops_platform.Dispatch.Assign.Answer.{cols}
use tt_aiops_platform.Dispatch.Assign.Bounds.{
  cost_from, IsMatrix, matrix-IsCosts, cols-IsChoice, cols-least,
}

abbrev blank : ℕ → ℕ → Hungarian
blank n m = record {
  u = replicate (suc n) (pos 0);
  v = replicate (suc m) (pos 0);
  p = replicate (suc m) 0;
  way = replicate (suc m) 0;
}

blank-IsPlaced : (a : List (List ℤ)) (n m c : ℕ) → IsCosts a n m c → IsPlaced a n m c 0 (blank n m)
blank-IsPlaced a n m c costs =
    let u_0 = λ (r : ℕ) (le : r ≤ n). get_or-replicate (suc n) r (pos 0) (pos 0) (omega arith) in
    let v_0 = λ (x : ℕ) (le : x ≤ m). get_or-replicate (suc m) x (pos 0) (pos 0) (omega arith) in
    let p_0 : (x : ℕ) → x ≤ m → get_or {A = ℕ} (replicate (suc m) 0) x 0 ≡ 0 =
      λ x le. get_or-replicate (suc m) x 0 0 (omega arith) in
    record {
      len_p = length-replicate {A = ℕ} (suc m) 0;
      len_way = length-replicate {A = ℕ} (suc m) 0;
      dual = record {
        len_u = length-replicate (suc n) (pos 0);
        len_v = length-replicate (suc m) (pos 0);
        feasible = λ r x lo hi lox hix. omega (
          arith,
          costs.at_least r x lo hi lox hix,
          ap pos_part (u_0 r hi),
          ap neg_part (u_0 r hi),
          ap pos_part (v_0 x hix),
          ap neg_part (v_0 x hix),
        );
        tight = λ x lo hi row. absurd (row (p_0 x hi));
        v_neg = λ x lo hi. ap pos_part (v_0 x hi);
        v_free = λ x lo hi q. v_0 x hi;
        u_new = λ r lo hi. u_0 r hi;
      };
      v_low = λ x lo hi. omega (arith, ap neg_part (v_0 x hi));
      once = λ r lo hi. absurd (omega arith);
      none_yet = λ r lo. ground (arith, copies-replicate r m 0);
      free = ground (arith, copies-replicate 0 m 0);
    }

-- What `hungarian` returns on `n` rows, not none, and `m` columns.
abbrev result : List (List ℤ) → ℕ → ℕ → Option (List ℕ)
result a n m =
    if leb n m
    then elim (place_rows a m 1 n (blank n m)) [
      | none ↦ none
      | some h ↦ some (answer h.p 1 m (replicate n 0))
    ]
    else none

non_empty :
    (r : List ℤ) (a : List (List ℤ))
    → hungarian (r ∷ a) ≡ result (r ∷ a) (suc (length a)) (length r)
unfolding hungarian
non_empty r a = rw (ne (length a)) refl
  where
    ne : (k : ℕ) → eqb (suc k) 0 ≡ false
    ne k = ground arith

result-some :
    (a : List (List ℤ)) (n m : ℕ) (s : Hungarian)
    → n ≤ m
    → place_rows a m 1 n (blank n m) ≡ some s
    → result a n m ≡ some (answer s.p 1 m (replicate n 0))
result-some a n m s wide e = let fits : leb n m ≡ true = ground arith in rw (fits, e) refl

-- For a matrix with no more rows than columns, whose costs are not negative and so small that the
-- rows times the largest stay below a quarter of the largest 64-bit number, the routine returns a
-- column for each row, each column at most once, and no other choice of different columns for the
-- rows costs less in all.
pub hungarian-least :
    (a : List (List ℤ)) (n m c : ℕ)
    → IsMatrix a n m c
    → n ≤ m
    → n * c < 2305843009213693951
    → (js : List ℕ) × (hungarian a ≡ some js)
      × IsChoice n m js
      × ((ks : List ℕ) → IsChoice n m ks → cost_from a 0 js ≤ cost_from a 0 ks)
unfolding hungarian
hungarian-least [] n m c h wide small = (
  [],
  refl,
  record { one_each = h.n_rows; in_range = tt; different = λ j. omega arith },
  (λ ks k. omega arith),
)
hungarian-least (r ∷ a) n m c h wide small =
    let costs = matrix-IsCosts (r ∷ a) n m c h in
    let (s, e, placed) =
      place_rows-IsPlaced (r ∷ a) n m c costs wide small n 0 (blank n m) (omega arith)
        (blank-IsPlaced (r ∷ a) n m c costs) in
    let sized : hungarian (r ∷ a) ≡ result (r ∷ a) n m =
      non_empty r a
      ∙ ap (λ k. result (r ∷ a) k (length r)) h.n_rows
      ∙ ap (result (r ∷ a) n) h.rows.0.0 in
    (
      cols (r ∷ a) n m c s placed,
      sized ∙ result-some (r ∷ a) n m s wide e,
      cols-IsChoice (r ∷ a) n m c costs s placed,
      cols-least (r ∷ a) n m c costs s placed,
    )
