-- ===== src/TosAvail/Diff.antt =====
-- crates/extractor/src/tos_avail.rs: `Transition`, `step_ts` and `diff_into`.
pub mod Trace
use tt_aiops_platform.Prelude.{
  ℕ, ◌+◌, String, Bool, true, false, Option, none, some, List, [], ◌∷◌, ◌++◌, map, if◌then◌else◌,
  ltb, ◌==◌, string_eq,
}
use tt_aiops_platform.Prelude.Maps
use tt_aiops_platform.Prelude.Sets
use tt_aiops_platform.TosAvail.Txn.{Instant, Change, Blame}

-- A truck enters or leaves the list of dispatchable trucks.
pub record Transition : Type 0 where
  pub ytno : String
  pub ts : Instant
  pub enter : Bool
  pub cause : String
  pub program : Option String
  pub contno : Option String
  pub jobtype : Option String

-- The new time, which is also the new `last`: one microsecond after `last` if not later already.
unfoldable pub step_ts : Instant → Instant → Instant
step_ts want last = if ltb last want then want else last + 1

-- `blame.and_then(|b| b.freed.get(y))`, and the same with `took`.
unfoldable pub freed_by : Option Blame → String → Option Change
freed_by none y = none
freed_by (some b) y = Maps.lookup y b.freed

unfoldable pub took_by : Option Blame → String → Option Change
took_by none y = none
took_by (some b) y = Maps.lookup y b.took

abbrev pub program_of : Option Change → Option String
program_of none = none
program_of (some c) = c.program

abbrev pub contno_of : Option Change → Option String
contno_of none = none
contno_of (some c) = some c.key.0

abbrev pub jobtype_of : Option Change → Option String
jobtype_of none = none
jobtype_of (some c) = c.jobtype

unfoldable pub entering : Instant → Option Blame → List String → Bool → String → Transition
entering ts blame logon_changed late y =
    let cause : String =
      if Sets.contains y logon_changed then "login" else if late then "late" else "release" in
    record {
      ytno = y;
      ts = ts;
      enter = true;
      cause = cause;
      program = if cause == "login" then none else program_of (freed_by blame y);
      contno = none;
      jobtype = none;
    }

unfoldable pub leaving : Instant → Option Blame → List String → Bool → String → Transition
leaving ts blame logon_changed late y =
    let ev : Option Change = if Sets.contains y logon_changed then none else took_by blame y in
    record {
      ytno = y;
      ts = ts;
      enter = false;
      cause =
          if Sets.contains y logon_changed then "logout" else if late then "late" else "dispatch";
      program = program_of ev;
      contno = contno_of ev;
      jobtype = jobtype_of ev;
    }

-- What is pushed onto `out`.
unfoldable pub diff_into :
    List Transition
    → List String
    → List String
    → Instant
    → Option Blame
    → List String
    → Bool
    → List Transition
diff_into out before after ts blame logon_changed late =
    out
    ++ (map (entering ts blame logon_changed late) (Sets.difference after before)
        ++ map (leaving ts blame logon_changed late) (Sets.difference before after))
