-- ===== src/Feed/Examples.antt =====
-- The theorems on the merged rows and on the verdict at concrete rows and counts.
use tt_aiops_platform.Prelude.{◌≡◌, none, some, List, [], ◌∷◌}
use tt_aiops_platform.Prelude.Int.{pos}
use tt_aiops_platform.Feed.{QueueRow, MoveRow, EtwTally, split_pool_tick}
use tt_aiops_platform.Feed.Split.{
  Source, of_queue, of_move, merge, queues, moves, split_pool_tick-merge,
}

abbrev queue : QueueRow
queue = record {
  qc = "C46";
  vessel = "V1";
  voyage = none;
  queuename = "Q1";
  disload = some "L";
  seq = some (pos 1);
  total_qty = some (pos 40);
  comp_qty = some (pos 12);
  plan_qty = none;
}

abbrev move : MoveRow
move = record {
  queuename = some "Q1";
  vessel = "V1";
  voyage = none;
  jobtype = some "LD";
  jobstatus = some "A";
  yt_status = none;
  ytno = some "T1";
  armgc = none;
  etw_dt = none;
  actv_dt = none;
  upd_dt = none;
  cre_dt = none;
  yt_dis_dt = none;
  contno = some "BOX1";
  msnseq = none;
  seqno = none;
  yt_topos = none;
  from_pos = none;
  to_pos = none;
  twintandem = none;
  twinkey = none;
}

abbrev sources : List Source
sources = of_move move ∷ of_queue queue ∷ of_move move ∷ []

split_pool_tick-merge_example : split_pool_tick (merge sources) ≡ (queues sources, moves sources)
split_pool_tick-merge_example = split_pool_tick-merge sources

-- One voyage is unknown, and another has a stored snapshot.
abbrev tally : EtwTally
tally = record { fetched = 0; skipped = 1; not_found = 1; failed = 0 }
