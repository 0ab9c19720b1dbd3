-- ===== src/Feed/Split.antt =====
-- The split takes back what the merged query put together.
use tt_aiops_platform.Prelude.{◌≡◌, refl, ap, none, some, List, [], ◌∷◌, string_eq}
use tt_aiops_platform.Feed.{QueueRow, MoveRow, PoolTickRow, queue_row, move_row, split_pool_tick}

-- A row of the merged query: of a queue, or of a move, with its tag.
pub data Source : Type 0 where
  of_queue : QueueRow → Source
  of_move : MoveRow → Source

abbrev pub merged : Source → PoolTickRow
merged (of_queue q) = record {
  src = "WQ";
  queuename = some q.queuename;
  vessel = q.vessel;
  voyage = q.voyage;
  qc = some q.qc;
  disload = q.disload;
  seq = q.seq;
  total_qty = q.total_qty;
  comp_qty = q.comp_qty;
  plan_qty = q.plan_qty;
  jobtype = none;
  jobstatus = none;
  yt_status = none;
  ytno = none;
  armgc = none;
  etw_dt = none;
  actv_dt = none;
  upd_dt = none;
  cre_dt = none;
  yt_dis_dt = none;
  contno = none;
  msnseq = none;
  seqno = none;
  yt_topos = none;
  from_pos = none;
  to_pos = none;
  twintandem = none;
  twinkey = none;
}
merged (of_move m) = record {
  src = "WP";
  queuename = m.queuename;
  vessel = m.vessel;
  voyage = m.voyage;
  qc = none;
  disload = none;
  seq = none;
  total_qty = none;
  comp_qty = none;
  plan_qty = none;
  jobtype = m.jobtype;
  jobstatus = m.jobstatus;
  yt_status = m.yt_status;
  ytno = m.ytno;
  armgc = m.armgc;
  etw_dt = m.etw_dt;
  actv_dt = m.actv_dt;
  upd_dt = m.upd_dt;
  cre_dt = m.cre_dt;
  yt_dis_dt = m.yt_dis_dt;
  contno = m.contno;
  msnseq = m.msnseq;
  seqno = m.seqno;
  yt_topos = m.yt_topos;
  from_pos = m.from_pos;
  to_pos = m.to_pos;
  twintandem = m.twintandem;
  twinkey = m.twinkey;
}

abbrev pub merge : List Source → List PoolTickRow
merge [] = []
merge (s ∷ ss) = merged s ∷ merge ss

abbrev pub queues : List Source → List QueueRow
queues [] = []
queues (of_queue q ∷ ss) = q ∷ queues ss
queues (of_move m ∷ ss) = queues ss

abbrev pub moves : List Source → List MoveRow
moves [] = []
moves (of_queue q ∷ ss) = moves ss
moves (of_move m ∷ ss) = m ∷ moves ss

-- Of merged rows in any interleaving the split gives back the queue rows and the move rows, each with
-- all their fields and in their order.
pub split_pool_tick-merge : (ss : List Source) → split_pool_tick (merge ss) ≡ (queues ss, moves ss)
unfolding split_pool_tick queue_row move_row
split_pool_tick-merge [] = refl
split_pool_tick-merge (of_queue q ∷ ss) = ap (λ r. (q ∷ r.0, r.1)) (split_pool_tick-merge ss)
split_pool_tick-merge (of_move m ∷ ss) = ap (λ r. (r.0, m ∷ r.1)) (split_pool_tick-merge ss)
