-- ===== src/Dispatch/Tick/Examples.antt =====
-- The theorems on a tick of the matcher at concrete works, trucks and holds.
use tt_aiops_platform.Prelude.{
  ℕ, ◌≡◌, ◌≤◌, ◌↔◌, refl, String, Bool, true, false, Option, some, none, List, [], ◌∷◌, length,
  subst, sym, get_elem?, copies, All, In, arith, string_eq, triple_eq,
}
use tt_aiops_platform.Prelude.Maps
use tt_aiops_platform.Prelude.Int.{ℤ, pos, ◌≤ℤ◌, ◌+ℤ◌}
use tt_aiops_platform.Dispatch.Signals.{HoldKind}
use tt_aiops_platform.Dispatch.Holds.{Held, new_rows, edge_allowed_by_hold}
use tt_aiops_platform.Dispatch.Cover.{Edge}
use tt_aiops_platform.Dispatch.Assign.{hungarian}
use tt_aiops_platform.Dispatch.Assign.Weights.{IsChoice}
use tt_aiops_platform.Dispatch.Assign.Optimal.{hungarian-least}
use tt_aiops_platform.Dispatch.Assign.Bounds.{cost_from}
use tt_aiops_platform.Dispatch.Assign.Slots.{assign_slots, works_of}
use tt_aiops_platform.Dispatch.Assign.Slots.Pairs.{assign_slots-IsMatching}
use tt_aiops_platform.Dispatch.Assign.Slots.Prices.{IsPriced, IsMatching, costs}
use tt_aiops_platform.Dispatch.Tick.{Work, Key, Located}
use tt_aiops_platform.Dispatch.Tick.Tiers.{dep_tiers, settle, last_tier, IsTiered, dep_tiers_lem}
use tt_aiops_platform.Dispatch.Tick.Trucks.{Vehicle, VehInfo}
use tt_aiops_platform.Dispatch.Tick.Edges.{
  Drive, has_edge, edge_cost, all_edges, work_edges, drive_of, start_place, hold_ok, box_held,
  switch_pen, switched_from,
}
use tt_aiops_platform.Dispatch.Tick.Edges.Holding.{IsTickEdge, RespectsHolds, all_edges_iff}
use tt_aiops_platform.Dispatch.Tick.Greedy.{Greedy, Driving, greedy}
use tt_aiops_platform.Dispatch.Tick.Greedy.Once.{edge_copies, greedy_lem}
use tt_aiops_platform.Dispatch.Tick.Match.{Matched, match_slots, pairs_at}
use tt_aiops_platform.Dispatch.Tick.Match.Whole.{IsWhole, match_slots-IsWhole}
use tt_aiops_platform.Dispatch.Tick.Match.Orders.{IsFree, tick_edges, new_rows-match_slots}

-- Two rows and three columns; the cheapest column of both is the same.
abbrev matrix : List (List ℤ)
matrix = (pos 4 ∷ pos 1 ∷ pos 3 ∷ []) ∷ (pos 2 ∷ pos 0 ∷ pos 5 ∷ []) ∷ []

hungarian-least_example :
    (js : List ℕ) × (hungarian matrix ≡ some js)
    × IsChoice 2 3 js
    × ((ks : List ℕ) → IsChoice 2 3 ks → cost_from matrix 0 js ≤ cost_from matrix 0 ks)
hungarian-least_example =
    hungarian-least matrix 2 3 5 (record { n_rows = refl; rows = omega arith }) (omega arith)
      (omega arith)

-- Trucks 0 and 1 reach the work 0, and only truck 0 the work 1.
abbrev some_edges : List Edge
some_edges = (0, 0, pos 100) ∷ (1, 0, pos 900) ∷ (0, 1, pos 300) ∷ []

some_edges-IsPriced : IsPriced 5000 some_edges
some_edges-IsPriced = omega arith

match_slots-IsWhole_example :
    (r : Matched) × (match_slots 2 (1 ∷ 0 ∷ 0 ∷ []) some_edges ≡ some r) × IsWhole 2 some_edges r
match_slots-IsWhole_example =
    match_slots-IsWhole 2 (1 ∷ 0 ∷ 0 ∷ []) some_edges 5000 some_edges-IsPriced (omega arith)
      (omega arith) (omega arith)

assign_slots-IsMatching_example :
    (pairs : List (ℕ × ℕ)) × (assign_slots 2 (1 ∷ 0 ∷ 0 ∷ []) some_edges
      ≡ some (works_of (1 ∷ 0 ∷ 0 ∷ []) (costs 2 (1 ∷ 0 ∷ 0 ∷ []) some_edges) pairs))
    × IsMatching 2 (1 ∷ 0 ∷ 0 ∷ []) some_edges pairs
assign_slots-IsMatching_example =
    assign_slots-IsMatching 2 (1 ∷ 0 ∷ 0 ∷ []) some_edges (omega arith) (omega arith)

-- Two loading works of one crane, and the box of the first is on its way.
abbrev work_of : String → Work
work_of c = record {
  qc = "C1";
  vessel = "V";
  queuename = "Q1";
  jobtype = "LD";
  src_block = some "A1";
  n = pos 2;
  work_eta_ts = some (pos 9000000);
  deadline_ts = some (pos 9500000);
  proc_s = some (pos 600);
  dispatch_deadline_ts = some (pos 1000000);
  tos_assigned = false;
  contno = some c;
  contnos = c ∷ [];
}

abbrev two_works : List Work
two_works = work_of "BOX1" ∷ work_of "BOX2" ∷ []

dep_tiers_lem_example :
    ((i : ℕ) (w : Work)
      → get_elem? two_works i ≡ some w
      → (x : Option ℤ × ℕ) × (get_elem? (dep_tiers [] (pos 8000000) two_works []).0 i ≡ some x)
        × IsTiered [] (pos 8000000) w x)
    × ((k : Key)
        → Maps.lookup k (dep_tiers [] (pos 8000000) two_works []).1
          ≡ last_tier k two_works (dep_tiers [] (pos 8000000) two_works []).0)
    × ((s : Option ℤ) (p : ℕ) → settle s (settle s p) ≡ settle s p)
    × ((v w : ℤ) (p : ℕ) → v ≤ℤ w → settle (some v) p ≤ settle (some w) p)
dep_tiers_lem_example = dep_tiers_lem [] (pos 8000000) two_works

-- One truck holds the first box, the other nothing. Every drive takes 100 seconds.
abbrev some_held : Held
some_held =
    ("T1", record { contno = "BOX1"; sent_ms = 5; msg_id = "m1"; kind = HoldKind.assign }) ∷ []

abbrev any_drive : ℕ → ℕ → Bool → Drive
any_drive a b ld = record { p50 = pos 100; p90 = pos 200; tier = "R" }

abbrev truck : String → Vehicle ℕ × VehInfo
truck yt = (
  record { ytno = yt; place = 0; free_in_s = pos 0; state = "free_tos" },
  record { free = true; remain = some (pos 0); jobtype = none },
)

abbrev two_trucks : List (Vehicle ℕ × VehInfo)
two_trucks = truck "T1" ∷ truck "T2" ∷ []

abbrev two_located : List (Located ℕ)
two_located =
    record { row = work_of "BOX1"; place = 1; eta = pos 9000000 }
    ∷ record { row = work_of "BOX2"; place = 2; eta = pos 9000000 }
    ∷ []

abbrev edges_now : List Edge
edges_now = tick_edges any_drive [] (pos 900000) [] [] some_held two_located two_trucks

edges_now_lem : edges_now ≡ (0, 0, pos 100) ∷ (1, 1, pos 100) ∷ []
unfolding all_edges work_edges has_edge drive_of start_place hold_ok box_held edge_allowed_by_hold
    edge_cost switch_pen switched_from Maps.lookup ◌+ℤ◌
edges_now_lem = refl

all_edges_iff_example :
    ((e : Edge)
      → In e edges_now
        ↔ IsTickEdge any_drive [] (pos 900000) [] [] some_held two_located two_trucks e)
    × ((v : Vehicle ℕ) (i : VehInfo) (l : Located ℕ)
        → has_edge any_drive [] (pos 900000) [] [] some_held v i l ≡ true
        → RespectsHolds some_held v.ytno l.row)
all_edges_iff_example =
    all_edges_iff any_drive [] (pos 900000) [] [] some_held two_located two_trucks

edges_now-IsPriced : IsPriced 5000 edges_now
edges_now-IsPriced = subst (IsPriced 5000) (sym edges_now_lem) (omega arith)

new_rows-match_slots_example :
    (r : Matched) × (match_slots 2 (0 ∷ 1 ∷ []) edges_now ≡ some r)
    × All (IsFree some_held) (new_rows some_held (pairs_at two_trucks two_located r.assign))
new_rows-match_slots_example =
    new_rows-match_slots any_drive [] (pos 900000) [] [] some_held two_located two_trucks
      (0 ∷ 1 ∷ []) 5000 edges_now-IsPriced (omega arith) (omega arith) (omega arith)

abbrev two_driving : List Driving
two_driving =
    record { cap = pos 1; deadline = pos 950000; jobtype = "LD" }
    ∷ record { cap = pos 2; deadline = pos 950000; jobtype = "LD" }
    ∷ []

abbrev greedy_now : Greedy
greedy_now = greedy (pos 900000) [] some_edges [] two_driving

once_each : (t wpos : ℕ) → edge_copies t wpos some_edges ≤ 1
once_each t wpos = ground arith

greedy_lem_example :
    ((t : ℕ) → copies t greedy_now.used ≤ 1)
    × (greedy_now.n ≡ length greedy_now.used)
    × (greedy_now.n ≤ 3)
    × (greedy_now.miss ≤ greedy_now.n)
greedy_lem_example = greedy_lem (pos 900000) [] some_edges [] once_each two_driving
