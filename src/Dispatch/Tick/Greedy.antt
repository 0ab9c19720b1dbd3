-- ===== src/Dispatch/Tick/Greedy.antt =====
-- crates/api/src/livemap.rs, `spawn_stage2_shadow`: the greedy baseline, which gives each work in turn
-- its cheapest trucks that are left.
pub mod Once
use tt_aiops_platform.Prelude.{
  ℕ, suc, ◌+◌, ◌*◌, String, Bool, true, false, not, ◌&&◌, List, [], ◌∷◌, any, select, get_or,
  if◌then◌else◌, leb, eqb, unwrap_or, string_eq,
}
use tt_aiops_platform.Prelude.Maps
use tt_aiops_platform.Prelude.Sorting.{sort_by}
use tt_aiops_platform.Prelude.Int.{ℤ, pos, ◌+ℤ◌, leb_ℤ, ltb_ℤ, mul_ℤ}
use tt_aiops_platform.Dispatch.Cover.{Edge}
use tt_aiops_platform.Dispatch.Tick.Edges.{Cell}

-- `used`, `greedy_cost`, `greedy_n` and `greedy_miss`.
pub record Greedy : Type 0 where
  pub used : List ℕ
  pub cost : ℤ
  pub n : ℕ
  pub miss : ℕ

-- A driving work: its limit, its deadline and its kind.
pub record Driving : Type 0 where
  pub cap : ℤ
  pub deadline : ℤ
  pub jobtype : String

abbrev pub Cand : Type 0
Cand = ℕ × ℤ

-- `edges_by_w[wpos]`
unfoldable pub edges_of : ℕ → List Edge → List Cand
edges_of wpos [] = []
edges_of wpos ((vi, w, c) ∷ edges) =
    let rest = edges_of wpos edges in if eqb w wpos then (vi, c) ∷ rest else rest

unfoldable pub cand_le : Cand → Cand → Bool
cand_le a b = leb_ℤ a.1 b.1

abbrev pub no_cell : Cell
no_cell = record { arr = pos 0; p90 = pos 0; tier = ""; switched = false }

module _ (now : ℤ) (lead_extra : List (String × ℤ)) (edges : List Edge)
    (matrix : List (List Cell)) where
  unfoldable pub is_missed : Driving → Cell → Bool
  is_missed d cell =
      let g_extra = unwrap_or (Maps.lookup d.jobtype lead_extra) (pos 0) in
      ltb_ℤ d.deadline (now +ℤ mul_ℤ 1000 (cell.p90 +ℤ g_extra))

  unfoldable pub take_one : ℕ → Driving → ℕ → Greedy → Greedy
  take_one wpos d vi g =
      let cell = get_or (get_or matrix wpos []) vi no_cell in
      record {
        used = vi ∷ g.used;
        cost = g.cost +ℤ cell.arr;
        n = suc g.n;
        miss = if is_missed d cell then suc g.miss else g.miss;
      }

  -- The loop over the sorted candidates; `taken` are taken already.
  unfoldable pub take_cands : ℕ → Driving → ℕ → List Cand → Greedy → Greedy
  take_cands wpos d taken [] g = g
  take_cands wpos d taken ((vi, pen) ∷ cand) g =
      let rest = take_cands wpos d (suc taken) cand (take_one wpos d vi g) in
      if leb_ℤ d.cap (pos taken) then g else rest

  unfoldable pub unused_cands : ℕ → Greedy → List Cand
  unused_cands wpos g =
      sort_by cand_le (select (λ c. not (any (eqb c.0) g.used)) (edges_of wpos edges))

  -- The loop over the driving works, the first at `wpos`.
  unfoldable pub greedy_from : ℕ → List Driving → Greedy → Greedy
  greedy_from wpos [] g = g
  greedy_from wpos (d ∷ driving) g =
      let taken = take_cands wpos d 0 (unused_cands wpos g) g in
      greedy_from (suc wpos) driving (if leb_ℤ d.cap (pos 0) then g else taken)

  unfoldable pub greedy : List Driving → Greedy
  greedy driving = greedy_from 0 driving (record { used = []; cost = pos 0; n = 0; miss = 0 })
