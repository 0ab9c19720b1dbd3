-- ===== src/TosAvail/Examples.antt =====
-- The theorems on the availability of trucks at a concrete anchor, commit and snapshot.
use tt_aiops_platform.Prelude.{
  ◌≡◌, max, some, none, List, [], ◌∷◌, select, ltb, eqb, length, triple_eq,
}
use tt_aiops_platform.Prelude.Maps
use tt_aiops_platform.Prelude.Sets
use tt_aiops_platform.TosAvail.State.{RowKey, State, free_set}
use tt_aiops_platform.TosAvail.Txn.{Change, apply_txn}
use tt_aiops_platform.TosAvail.Txn.Rows.{last_row, apply_txn_lem}
use tt_aiops_platform.TosAvail.Diff.Trace.{Trace}
use tt_aiops_platform.TosAvail.Replay.{Anchor, Snapshot, replay, group_txns, count_events}
use tt_aiops_platform.TosAvail.Replay.History.{replay-Trace}
use tt_aiops_platform.TosAvail.Replay.Commits.{commit, IsGrouped, group_txns_lem, replay-seen}

abbrev box_1 : RowKey
box_1 = ("BOX1", "F", "1")

-- Truck T1 is on a job, T2 is not.
abbrev yard : State
yard = record {
  rows = (box_1, record { ytno = some "T1"; ys = "A" }) ∷ [];
  machines =
      ("T1", record { onoff = "O"; pool = none })
      ∷ ("T2", record { onoff = "O"; pool = none })
      ∷ [];
  stopped = [];
}

-- The job is finished, after a change that the anchor has seen.
abbrev changes : List Change
changes =
    record {
      scn = 9;
      ts = 900;
      ty = b'U';
      key = box_1;
      ytno = some "T1";
      ys = "A";
      jobtype = none;
      program = none;
    }
    ∷ record {
      scn = 12;
      ts = 1200;
      ty = b'D';
      key = box_1;
      ytno = some "T1";
      ys = "A";
      jobtype = none;
      program = none;
    }
    ∷ []

abbrev anchor : Anchor
anchor = record { as_of = 1000; state = yard; scn = 10; last_ts = 950; logons = none }

abbrev snapshot : Snapshot
snapshot = record { as_of = 2000; state = record yard { rows = [] }; last_on = []; last_off = [] }

apply_txn_lem_example :
    (Maps.lookup box_1 (apply_txn yard changes).0.rows
      ≡ last_row box_1 (Maps.lookup box_1 yard.rows) changes)
    × ((apply_txn yard changes).0.machines ≡ yard.machines)
apply_txn_lem_example = apply_txn_lem box_1 yard changes

replay-Trace_example :
    Trace "T1"
      (Sets.contains "T1" (free_set anchor.state))
      (max anchor.as_of anchor.last_ts)
      (replay anchor changes snapshot).transitions
      (Sets.contains "T1" (free_set snapshot.state))
      (replay anchor changes snapshot).last_ts
replay-Trace_example = replay-Trace anchor changes snapshot "T1"

group_txns_lem_example :
    IsGrouped (group_txns changes [])
    × (commit 12 (group_txns changes []) ≡ select (λ c. eqb c.scn 12) changes)
    × (count_events (group_txns changes []) ≡ length changes)
group_txns_lem_example = group_txns_lem changes 12

replay-seen_example :
    replay anchor (select (λ c. ltb anchor.scn c.scn) changes) snapshot
    ≡ replay anchor changes snapshot
replay-seen_example = replay-seen anchor changes snapshot
