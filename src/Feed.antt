-- ===== src/Feed.antt =====
-- crates/extractor/src/workpool.rs: the split of the merged rows of a tick (`split_pool_tick`), and the
-- verdict on the fetches of crane times (`etw_outcome`). The texts of the failures are values.
pub mod Split
pub mod Verdict
mod Examples
use tt_aiops_platform.Prelude.{
  ℕ, ◌≡◌, String, Bool, true, false, ◌&&◌, Option, none, some, List, [], ◌∷◌, if◌then◌else◌, ltb,
  eqb, ◌==◌, string_eq, Result, ok, err,
}
use tt_aiops_platform.Prelude.Int.{ℤ}

pub record QueueRow : Type 0 where
  pub qc : String
  pub vessel : String
  pub voyage : Option String
  pub queuename : String
  pub disload : Option String
  pub seq : Option ℤ
  pub total_qty : Option ℤ
  pub comp_qty : Option ℤ
  pub plan_qty : Option ℤ

pub record MoveRow : Type 0 where
  pub queuename : Option String
  pub vessel : String
  pub voyage : Option String
  pub jobtype : Option String
  pub jobstatus : Option String
  pub yt_status : Option String
  pub ytno : Option String
  pub armgc : Option String
  pub etw_dt : Option String
  pub actv_dt : Option String
  pub upd_dt : Option String
  pub cre_dt : Option String
  pub yt_dis_dt : Option String
  pub contno : Option String
  pub msnseq : Option String
  pub seqno : Option String
  pub yt_topos : Option String
  pub from_pos : Option String
  pub to_pos : Option String
  pub twintandem : Option String
  pub twinkey : Option String

-- Both kinds of row in one.
pub record PoolTickRow : Type 0 where
  pub src : String
  pub queuename : Option String
  pub vessel : String
  pub voyage : Option String
  pub qc : Option String
  pub disload : Option String
  pub seq : Option ℤ
  pub total_qty : Option ℤ
  pub comp_qty : Option ℤ
  pub plan_qty : Option ℤ
  pub jobtype : Option String
  pub jobstatus : Option String
  pub yt_status : Option String
  pub ytno : Option String
  pub armgc : Option String
  pub etw_dt : Option String
  pub actv_dt : Option String
  pub upd_dt : Option String
  pub cre_dt : Option String
  pub yt_dis_dt : Option String
  pub contno : Option String
  pub msnseq : Option String
  pub seqno : Option String
  pub yt_topos : Option String
  pub from_pos : Option String
  pub to_pos : Option String
  pub twintandem : Option String
  pub twinkey : Option String

-- A queue row needs its crane and its name; the source only warns of one that lacks them.
unfoldable pub queue_row : PoolTickRow → Option QueueRow
queue_row r = elim r.qc [
  | none ↦ none
  | some crane ↦ elim r.queuename [
    | none ↦ none
    | some queue ↦ some (record {
      qc = crane;
      vessel = r.vessel;
      voyage = r.voyage;
      queuename = queue;
      disload = r.disload;
      seq = r.seq;
      total_qty = r.total_qty;
      comp_qty = r.comp_qty;
      plan_qty = r.plan_qty;
    })
  ]
]

unfoldable pub move_row : PoolTickRow → MoveRow
move_row r = record {
  queuename = r.queuename;
  vessel = r.vessel;
  voyage = r.voyage;
  jobtype = r.jobtype;
  jobstatus = r.jobstatus;
  yt_status = r.yt_status;
  ytno = r.ytno;
  armgc = r.armgc;
  etw_dt = r.etw_dt;
  actv_dt = r.actv_dt;
  upd_dt = r.upd_dt;
  cre_dt = r.cre_dt;
  yt_dis_dt = r.yt_dis_dt;
  contno = r.contno;
  msnseq = r.msnseq;
  seqno = r.seqno;
  yt_topos = r.yt_topos;
  from_pos = r.from_pos;
  to_pos = r.to_pos;
  twintandem = r.twintandem;
  twinkey = r.twinkey;
}

unfoldable pub split_pool_tick : List PoolTickRow → List QueueRow × List MoveRow
unfolding queue_row move_row
split_pool_tick [] = ([], [])
split_pool_tick (r ∷ rs) =
    let rest = split_pool_tick rs in
    if r.src == "WQ"
    then elim (queue_row r) [ none ↦ rest | some q ↦ (q ∷ rest.0, rest.1) ]
    else (rest.0, move_row r ∷ rest.1)

-- The counts of a tick by voyage.
pub record EtwTally : Type 0 where
  pub fetched : ℕ
  pub skipped : ℕ
  pub not_found : ℕ
  pub failed : ℕ

pub data EtwError : Type 0 where
  all_failed : ℕ → Option String → EtwError
  all_not_found : ℕ → EtwError

unfoldable pub etw_outcome : EtwTally → Option String → Result EtwError (Unit {0})
etw_outcome t first_err =
    if ltb 0 t.fetched
    then ok tt
    else if ltb 0 t.failed
    then err (all_failed t.failed first_err)
    else if ltb 0 t.not_found && eqb t.skipped 0
    then err (all_not_found t.not_found)
    else ok tt
