-- ===== src/Dispatch/Wake.antt =====
-- crates/api/src/livemap.rs: when the matcher wakes up. `WakeSrc`, `WakeStep`, `should_wake`,
-- `free_advanced`, `combine_wake`, `advance_free_seen`, `wait_for_workpool_landing`.
-- A waited time is a count of nanoseconds, as in `Duration`.
pub mod Steps
pub mod Waiting
use tt_aiops_platform.Prelude.{
  ℕ, zero, suc, ◌+◌, ◌*◌, String, Bool, true, false, ◌&&◌, ◌||◌, Option, none, some, ltb, leb,
  if◌then◌else◌, is_some, is_none, Result, ok, err,
}
use tt_aiops_platform.Prelude.Int.{ℤ}
use tt_aiops_platform.Dispatch.Signals.{Instant}

pub data WakeSrc : Type 0 where
  startup landing fallback free : WakeSrc

unfoldable pub as_str : WakeSrc → String
as_str WakeSrc.startup = "startup"
as_str WakeSrc.landing = "landing"
as_str WakeSrc.fallback = "fallback"
as_str WakeSrc.free = "free"

pub data WakeStep : Type 0 where
  wake : WakeSrc → WakeStep
  keep_waiting : WakeStep

abbrev pub wake_poll_ms : ℕ
wake_poll_ms = 2000

abbrev pub wake_max_wait_ms : ℕ
wake_max_wait_ms = 150000

abbrev pub ns_of_ms : ℕ → ℕ
ns_of_ms ms = ms * 1000000

-- The last two arms: the longest wait is over, or not.
unfoldable pub heartbeat : ℕ → WakeStep
heartbeat waited =
    if leb (ns_of_ms wake_max_wait_ms) waited
    then WakeStep.wake WakeSrc.fallback
    else WakeStep.keep_waiting

unfoldable pub should_wake : Option Instant → Option Instant → ℕ → WakeStep
unfolding heartbeat
should_wake none none waited = heartbeat waited
should_wake none (some landed) waited = WakeStep.wake WakeSrc.startup
should_wake (some seen) none waited = heartbeat waited
should_wake (some seen) (some landed) waited =
    if ltb seen landed then WakeStep.wake WakeSrc.landing else heartbeat waited

unfoldable pub free_advanced : Option Instant → Option Instant → Bool
free_advanced (some s) (some l) = ltb s l
free_advanced _ _ = false

unfoldable pub combine_wake : WakeStep → Bool → WakeStep
combine_wake (WakeStep.wake WakeSrc.startup) free_new = WakeStep.wake WakeSrc.startup
combine_wake (WakeStep.wake WakeSrc.landing) free_new = WakeStep.wake WakeSrc.landing
combine_wake wp free_new = if free_new then WakeStep.wake WakeSrc.free else wp

-- What the two sources of free events, of load and of discharge work, have landed.
pub record FreeSeen : Type 0 where
  pub load : Option Instant
  pub discharge : Option Instant

unfoldable pub advance_one : Option Instant → Option Instant → Bool → Option Instant
advance_one s l woke = if is_some l && (woke || is_none s) then l else s

unfoldable pub advance_free_seen : FreeSeen → FreeSeen → Bool → FreeSeen
advance_free_seen seen landed woke = record {
  load = advance_one seen.load landed.load woke;
  discharge = advance_one seen.discharge landed.discharge woke;
}

-- A row of the freshness query: the age of the last success and of the table, and what landed.
pub record FreshRow : Type 0 where
  pub age : Option ℤ
  pub table_age : Option ℤ
  pub landed : Option Instant
  pub load : Option Instant
  pub discharge : Option Instant

-- What one round of the loop meets: the answer of the query and the time waited so far.
pub record Poll : Type 0 where
  pub row : Result String FreshRow
  pub elapsed : ℕ

-- The input of the freshness gate.
abbrev pub Gate : Type 0
Gate = Result String (Option ℤ × Option ℤ)

unfoldable pub landed_of : Poll → Option Instant
landed_of p = elim p.row [ ok r ↦ r.landed | err e ↦ none ]

unfoldable pub free_landed_of : Poll → FreeSeen
free_landed_of p = elim p.row [
  | ok r ↦ record { load = r.load; discharge = r.discharge }
  | err e ↦ record { load = none; discharge = none }
]

unfoldable pub gate_of : Poll → Gate
gate_of p = elim p.row [ ok r ↦ ok (r.age, r.table_age) | err e ↦ err e ]

-- Either source has landed a new row.
unfoldable pub any_free_advanced : FreeSeen → FreeSeen → Bool
any_free_advanced seen landed =
    free_advanced seen.load landed.load || free_advanced seen.discharge landed.discharge

-- The judgement of one round.
unfoldable pub judge : Bool → Option Instant → FreeSeen → Poll → WakeStep
judge wake_on_free seen free_seen p =
    combine_wake (should_wake seen (landed_of p) p.elapsed)
      (wake_on_free && any_free_advanced free_seen (free_landed_of p))

-- What a finished wait leaves: the reason, the gate's input and the two baselines.
pub record Woken : Type 0 where
  pub src : WakeSrc
  pub gate : Gate
  pub seen : Option Instant
  pub free_seen : FreeSeen

-- `if landed.is_some() { *seen = landed; }`
unfoldable pub advance_seen : Option Instant → Option Instant → Option Instant
advance_seen seen landed = if is_some landed then landed else seen

unfoldable pub woken_of : WakeSrc → Option Instant → FreeSeen → Poll → Woken
woken_of src seen free_seen p = record {
  src = src;
  gate = gate_of p;
  seen = advance_seen seen (landed_of p);
  free_seen = advance_free_seen free_seen (free_landed_of p) true;
}

-- The loop, over the polls from number `i` on; `none` when the rounds run out.
unfoldable pub wait_for_workpool_landing :
    ℕ → (ℕ → Poll) → ℕ → Option Instant → FreeSeen → Bool → Option Woken
wait_for_workpool_landing zero polls i seen free_seen wake_on_free = none
wait_for_workpool_landing (suc rounds) polls i seen free_seen wake_on_free =
    elim (judge wake_on_free seen free_seen (polls i)) [
      | WakeStep.wake src ↦ some (woken_of src seen free_seen (polls i))
      | WakeStep.keep_waiting ↦
          wait_for_workpool_landing rounds polls (suc i) seen
            (advance_free_seen free_seen (free_landed_of (polls i)) false) wake_on_free
    ]
