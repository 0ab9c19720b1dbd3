-- ===== src/Dispatch/Tick/Edges.antt =====
-- crates/api/src/livemap.rs, `spawn_stage2_shadow`: the edges between trucks and works with their
-- costs, and the matrix of arrivals.
pub mod Joined
pub mod Holding
use tt_aiops_platform.Prelude.{
  ℕ, suc, String, Bool, true, false, not, ◌&&◌, Option, none, some, List, [], ◌∷◌, ◌++◌, any,
  if◌then◌else◌, is_some, is_some_and, unwrap_or, ◌==◌, string_eq, triple_eq,
}
use tt_aiops_platform.Prelude.Maps
use tt_aiops_platform.Prelude.Int.{ℤ, pos, ◌+ℤ◌, ◌-ℤ◌, ltb_ℤ}
use tt_aiops_platform.Dispatch.Holds.{Hold, Held, edge_allowed_by_hold}
use tt_aiops_platform.Dispatch.Cover.{Edge}
use tt_aiops_platform.Dispatch.Tick.{Work, Key, key_of, Located}
use tt_aiops_platform.Dispatch.Tick.Trucks.{Vehicle, VehInfo}

-- The drive of an empty truck: the median, the ninth decile and the kind of estimate.
pub record Drive : Type 0 where
  pub p50 : ℤ
  pub p90 : ℤ
  pub tier : String

-- An entry of `matrix`.
pub record Cell : Type 0 where
  pub arr : ℤ
  pub p90 : ℤ
  pub tier : String
  pub switched : Bool

abbrev pub switch_penalty_s : ℕ
switch_penalty_s = 180

abbrev pub commit_lock_s : ℕ
commit_lock_s = 1200

abbrev pub commit_window_ms : ℕ
commit_window_ms = 600000

-- The keys of queues with the times of their works: `eta_by_key`.
unfoldable pub eta_by_key : List Work → List (Key × ℤ) → List (Key × ℤ)
eta_by_key [] m = m
eta_by_key (w ∷ work) m = elim w.work_eta_ts [
  | none ↦ eta_by_key work m
  | some e ↦ eta_by_key work (Maps.insert (key_of w) e m)
]

unfoldable pub switched_from : Option Key → Key → Bool
switched_from none key = false
switched_from (some pk) key = not (pk == key)

unfoldable pub is_imminent : ℤ → List (Key × ℤ) → Key → Bool
is_imminent now etas pk =
    is_some_and (Maps.lookup pk etas) (λ e. ltb_ℤ (e -ℤ now) (pos commit_window_ms))

unfoldable pub switch_pen : ℤ → List (Key × ℤ) → Option Key → Key → ℕ
switch_pen now etas prevk key =
    if switched_from prevk key
    then if is_some_and prevk (is_imminent now etas) then commit_lock_s else switch_penalty_s
    else 0

-- `held_boxes.contains`: some truck holds the box.
unfoldable pub box_held : Held → String → Bool
box_held held c = any (λ (yt, h). h.contno == c) held

-- `held.get(..).map(|h| h.contno.as_str())`
abbrev pub hold_box : Option Hold → Option String
hold_box none = none
hold_box (some h) = some h.contno

unfoldable pub hold_ok : Held → String → Work → Bool
hold_ok held yt w =
    edge_allowed_by_hold (hold_box (Maps.lookup yt held)) w.contno
      (is_some_and w.contno (box_held held))

-- `cost` gives the drive from one place to another; `drop_pos` has where trucks will set down.
module _ {P : Type 0} (cost : P → P → Bool → Drive) (drop_pos : List (String × P)) (now : ℤ)
    (etas : List (Key × ℤ)) (prev : List (String × Key)) (held : Held) where
  unfoldable pub start_place : Vehicle P → VehInfo → P
  start_place v i = if i.free then v.place else unwrap_or (Maps.lookup v.ytno drop_pos) v.place

  unfoldable pub drive_of : Vehicle P → VehInfo → Located P → Drive
  drive_of v i l = cost (start_place v i) l.place (l.row.jobtype == "LD")

  -- The cost of an edge, and what is written to the row of the matrix.
  unfoldable pub edge_cost : Vehicle P → VehInfo → Located P → ℤ
  edge_cost v i l =
      (unwrap_or i.remain v.free_in_s +ℤ (drive_of v i l).p50)
      +ℤ pos (switch_pen now etas (Maps.lookup v.ytno prev) (key_of l.row))

  unfoldable pub cell_of : Vehicle P → VehInfo → Located P → Cell
  cell_of v i l = record {
    arr = unwrap_or i.remain v.free_in_s +ℤ (drive_of v i l).p50;
    p90 = unwrap_or i.remain v.free_in_s +ℤ (drive_of v i l).p90;
    tier = (drive_of v i l).tier;
    switched = switched_from (Maps.lookup v.ytno prev) (key_of l.row);
  }

  unfoldable pub has_edge : Vehicle P → VehInfo → Located P → Bool
  has_edge v i l =
      hold_ok held v.ytno l.row && (is_some i.remain && ltb_ℤ (drive_of v i l).p50 (pos 1800))

  -- The loop over the trucks, the first with the index `vi`, for the work at `wpos`.
  unfoldable pub work_edges : ℕ → ℕ → Located P → List (Vehicle P × VehInfo) → List Edge
  work_edges wpos vi l [] = []
  work_edges wpos vi l ((v, i) ∷ vs) =
      let rest = work_edges wpos (suc vi) l vs in
      if has_edge v i l then (vi, wpos, edge_cost v i l) ∷ rest else rest

  unfoldable pub work_row : Located P → List (Vehicle P × VehInfo) → List Cell
  work_row l [] = []
  work_row l ((v, i) ∷ vs) = cell_of v i l ∷ work_row l vs

  -- The loop over the driving works, the first at `wpos`: `edges` and `matrix`.
  unfoldable pub all_edges : ℕ → List (Located P) → List (Vehicle P × VehInfo) → List Edge
  all_edges wpos [] vs = []
  all_edges wpos (l ∷ ls) vs = work_edges wpos 0 l vs ++ all_edges (suc wpos) ls vs

  unfoldable pub matrix : List (Located P) → List (Vehicle P × VehInfo) → List (List Cell)
  matrix [] vs = []
  matrix (l ∷ ls) vs = work_row l vs ∷ matrix ls vs
