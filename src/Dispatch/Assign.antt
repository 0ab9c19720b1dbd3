-- ===== src/Dispatch/Assign.antt =====
-- crates/api/src/livemap.rs: `hungarian`, the assignment of least cost, and `assign_slots`. Rows and
-- columns count from 1 inside `hungarian`; column 0 holds the row that is being placed. The two inner
-- loops are on fuel; running out of it is `none`.
pub mod Scan
pub mod Shift
pub mod Augment
pub mod Dual
pub mod Marks
pub mod Marked
pub mod Moved
pub mod Grown
pub mod Placed
pub mod Answer
pub mod Weights
pub mod Bounds
pub mod Optimal
pub mod Slots
use tt_aiops_platform.Prelude.{
  ℕ, zero, suc, ◌+◌, ◌-◌, Bool, true, false, not, Option, none, some, List, [], ◌∷◌, if◌then◌else◌,
  eqb, leb, length, get_or, set, replicate,
}
use tt_aiops_platform.Prelude.Int.{ℤ, pos, ◌+ℤ◌, ◌-ℤ◌, ltb_ℤ}

-- `i64::MAX / 4`
abbrev pub inf : ℤ
inf = pos 2305843009213693951

-- The potentials `u` and `v`, the row `p[j]` of each column, and `way`.
pub record Hungarian : Type 0 where
  pub u : List ℤ
  pub v : List ℤ
  pub p : List ℕ
  pub way : List ℕ

-- What the search for one row adds to them.
pub record Search : Type 0 where
  pub minv : List ℤ
  pub used : List Bool
  pub way : List ℕ
  pub u : List ℤ
  pub v : List ℤ

-- The variables of the loop over the columns.
pub record Least : Type 0 where
  pub minv : List ℤ
  pub way : List ℕ
  pub delta : ℤ
  pub j1 : ℕ

module _ (a : List (List ℤ)) where
  abbrev pub cell : ℕ → ℕ → ℤ
  cell i j = get_or (get_or a (i - 1) []) (j - 1) (pos 0)

  -- `cur`: what the row `i` and the column `j` leave of the cost.
  abbrev pub reduced : List ℤ → List ℤ → ℕ → ℕ → ℤ
  reduced u v i j = cell i j -ℤ get_or u i (pos 0) -ℤ get_or v j (pos 0)

  module _ (used : List Bool) (u v : List ℤ) (i0 j0 : ℕ) where
    unfoldable pub scan_column : ℕ → Least → Least
    scan_column j s =
        let cur = reduced u v i0 j in
        let closer = ltb_ℤ cur (get_or s.minv j (pos 0)) in
        let minv = if closer then set s.minv j cur else s.minv in
        let way = if closer then set s.way j j0 else s.way in
        let best = ltb_ℤ (get_or minv j (pos 0)) s.delta in
        if get_or used j true then s else record {
          minv = minv;
          way = way;
          delta = if best then get_or minv j (pos 0) else s.delta;
          j1 = if best then j else s.j1;
        }

    -- The columns `j, j + 1, ...`, `k` of them.
    unfoldable pub scan_columns : ℕ → ℕ → Least → Least
    scan_columns j zero s = s
    scan_columns j (suc k) s = scan_columns (suc j) k (scan_column j s)

-- The loop that moves the potentials by `delta`.
unfoldable pub shift_column : List ℕ → ℤ → ℕ → Search → Search
shift_column p delta j s =
    if get_or s.used j true
    then record s {
      u = set s.u (get_or p j 0) (get_or s.u (get_or p j 0) (pos 0) +ℤ delta);
      v = set s.v j (get_or s.v j (pos 0) -ℤ delta);
    }
    else record s { minv = set s.minv j (get_or s.minv j (pos 0) -ℤ delta) }

unfoldable pub shift_columns : List ℕ → ℤ → ℕ → ℕ → Search → Search
shift_columns p delta j zero s = s
shift_columns p delta j (suc k) s = shift_columns p delta (suc j) k (shift_column p delta j s)

-- The second inner loop.
unfoldable pub augment : ℕ → List ℕ → ℕ → List ℕ → Option (List ℕ)
augment zero way j0 p = none
augment (suc fuel) way j0 p =
    let j1 = get_or way j0 0 in
    let p' = set p j0 (get_or p j1 0) in
    elim (eqb j1 0) [ true ↦ some p' | false ↦ augment fuel way j1 p' ]

module _ (a : List (List ℤ)) (m : ℕ) where
  -- One round of the search from the column `j0`: what it leaves, and the next column.
  unfoldable pub round : List ℕ → ℕ → Search → Search × ℕ
  round p j0 s =
      let used = set s.used j0 true in
      let found =
        scan_columns a used s.u s.v (get_or p j0 0) j0 1 m
          (record { minv = s.minv; way = s.way; delta = inf; j1 = 0 }) in
      let marked : Search = record {
        minv = found.minv;
        used = used;
        way = found.way;
        u = s.u;
        v = s.v;
      } in
      (shift_columns p found.delta 0 (suc m) marked, found.j1)

  -- The first inner loop.
  unfoldable pub grow : ℕ → List ℕ → ℕ → Search → Option (Search × ℕ)
  grow zero p j0 s = none
  grow (suc fuel) p j0 s =
      let (after, j1) = round p j0 s in
      elim (eqb (get_or p j1 0) 0) [ true ↦ some (after, j1) | false ↦ grow fuel p j1 after ]

  -- The body of the loop over the rows.
  unfoldable pub place_row : ℕ → Hungarian → Option Hungarian
  place_row i h =
      let p = set h.p 0 i in
      let start : Search = record {
        minv = replicate (suc m) inf;
        used = replicate (suc m) false;
        way = h.way;
        u = h.u;
        v = h.v;
      } in
      elim (grow (suc m) p 0 start) [
        | none ↦ none
        | some (s, j0) ↦ elim (augment (suc m) s.way j0 p) [
          | none ↦ none
          | some p' ↦ some (record { u = s.u; v = s.v; p = p'; way = s.way })
        ]
      ]

  -- The rows `i, i + 1, ...`, `k` of them.
  unfoldable pub place_rows : ℕ → ℕ → Hungarian → Option Hungarian
  place_rows i zero h = some h
  place_rows i (suc k) h = elim (place_row i h) [ none ↦ none | some h' ↦ place_rows (suc i) k h' ]

-- The last loop: the column of each row, from the columns `j, j + 1, ...`, `k` of them.
unfoldable pub answer : List ℕ → ℕ → ℕ → List ℕ → List ℕ
answer p j zero ans = ans
answer p j (suc k) ans =
    let r = get_or p j 0 in answer p (suc j) k (if eqb r 0 then ans else set ans (r - 1) (j - 1))

-- The assertion's failure is `none` as well.
unfoldable pub hungarian : List (List ℤ) → Option (List ℕ)
hungarian a =
    let n = length a in
    let m = length (get_or a 0 []) in
    let start : Hungarian = record {
      u = replicate (suc n) (pos 0);
      v = replicate (suc m) (pos 0);
      p = replicate (suc m) 0;
      way = replicate (suc m) 0;
    } in
    if eqb n 0
    then some []
    else if leb n m
    then elim (place_rows a m 1 n start) [
      | none ↦ none
      | some h ↦ some (answer h.p 1 m (replicate n 0))
    ]
    else none
