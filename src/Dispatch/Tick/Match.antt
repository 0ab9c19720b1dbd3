-- ===== src/Dispatch/Tick/Match.antt =====
-- crates/api/src/livemap.rs, `spawn_stage2_shadow`: the slots of the driving works, their cover and
-- their assignment, what is counted of them, and the orders sent.
pub mod Whole
pub mod Orders
use tt_aiops_platform.Prelude.{
  ℕ, suc, ◌+◌, String, Bool, true, false, not, Option, none, some, List, [], ◌∷◌, ◌++◌, any,
  replicate, if◌then◌else◌, get_or, get_elem?, eqb, unwrap_or, string_eq,
}
use tt_aiops_platform.Prelude.Maps
use tt_aiops_platform.Prelude.Int.{ℤ, pos, pos_part, ◌+ℤ◌, ◌-ℤ◌, leb_ℤ, mul_ℤ, div_ℤ}
use tt_aiops_platform.Dispatch.Cover.{Edge, deadline_cover}
use tt_aiops_platform.Dispatch.Assign.Slots.{assign_slots}
use tt_aiops_platform.Dispatch.Holds.{Candidate, WorkItem}
use tt_aiops_platform.Dispatch.Tick.{Work, Located}
use tt_aiops_platform.Dispatch.Tick.Trucks.{Vehicle, VehInfo}
use tt_aiops_platform.Dispatch.Tick.Edges.{Cell}
use tt_aiops_platform.Dispatch.Tick.Greedy.{Driving, no_cell}

-- `slot_all`: the position of each work as often as its limit says, the first at `wp`.
unfoldable pub slot_all : ℕ → List ℤ → List ℕ
slot_all wp [] = []
slot_all wp (c ∷ caps) = replicate (pos_part c) wp ++ slot_all (suc wp) caps

-- The slots whose flag is set.
unfoldable pub covered_slots : List ℕ → List Bool → List ℕ
covered_slots [] covered = []
covered_slots (w ∷ slots) [] = []
covered_slots (w ∷ slots) (b ∷ covered) =
    let rest = covered_slots slots covered in if b then w ∷ rest else rest

-- `slot_wpos` and `assign`.
pub record Matched : Type 0 where
  pub slot_wpos : List ℕ
  pub assign : List (ℕ × ℕ)

unfoldable pub match_slots : ℕ → List ℕ → List Edge → Option Matched
match_slots n_v slots edges = elim (deadline_cover n_v slots edges) [
  | none ↦ none
  | some (covered, _) ↦ elim (assign_slots n_v (covered_slots slots covered) edges) [
    | none ↦ none
    | some pairs ↦ some (record { slot_wpos = covered_slots slots covered; assign = pairs })
  ]
]

-- `t1_unreach_n`: the slots of the works that no edge reaches, the first work at `wp`.
unfoldable pub unreached : List Edge → ℕ → List ℤ → ℕ
unreached edges wp [] = 0
unreached edges wp (c ∷ caps) =
    let rest = unreached edges (suc wp) caps in
    if any (λ e. eqb e.1 wp) edges then rest else pos_part c + rest

-- `opt_cost` and `opt_miss`, with the slack of each pair.
pub record Scored : Type 0 where
  pub cost : ℤ
  pub miss : ℕ
  pub slacks : List ℤ

module _ (now : ℤ) (lead_extra : List (String × ℤ)) (driving : List Driving)
    (matrix : List (List Cell)) where
  unfoldable pub arrival_at : Driving → Cell → ℤ
  arrival_at d cell =
      now +ℤ mul_ℤ 1000 (cell.p90 +ℤ unwrap_or (Maps.lookup d.jobtype lead_extra) (pos 0))

  unfoldable pub score_pair : Driving → Cell → Scored → Scored
  score_pair d cell rest = record {
    cost = cell.arr +ℤ rest.cost;
    miss = if leb_ℤ (arrival_at d cell) d.deadline then rest.miss else suc rest.miss;
    slacks = div_ℤ (d.deadline -ℤ arrival_at d cell) 1000 ∷ rest.slacks;
  }

  unfoldable pub score : List (ℕ × ℕ) → Scored
  score [] = record { cost = pos 0; miss = 0; slacks = [] }
  score ((vi, wpos) ∷ assign) =
      let no_work : Driving = record { cap = pos 0; deadline = pos 0; jobtype = "" } in
      score_pair (get_or driving wpos no_work) (get_or (get_or matrix wpos []) vi no_cell)
        (score assign)

-- The truck and the work of each pair, as the orders take them.
module _ {P : Type 0} where
  unfoldable pub candidate_of : Vehicle P × VehInfo → Candidate
  candidate_of x = record { ytno = x.0.ytno; free_now = x.1.free }

  unfoldable pub item_of : Located P → WorkItem
  item_of l = record { contno = l.row.contno; jobtype = l.row.jobtype; qc = l.row.qc }

  unfoldable pub pairs_at :
      List (Vehicle P × VehInfo) → List (Located P) → List (ℕ × ℕ) → List (Candidate × WorkItem)
  pairs_at vs ls [] = []
  pairs_at vs ls ((vi, wpos) ∷ assign) =
      let rest = pairs_at vs ls assign in
      elim (get_elem? vs vi) [
        | none ↦ rest
        | some x ↦ elim (get_elem? ls wpos) [
          | none ↦ rest
          | some l ↦ (candidate_of x, item_of l) ∷ rest
        ]
      ]
