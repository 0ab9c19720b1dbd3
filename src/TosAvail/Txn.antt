-- ===== src/TosAvail/Txn.antt =====
-- crates/extractor/src/tos_avail.rs: `Change`, `ty_rank`, `Blame` and `apply_txn`: one commit of
-- changes of job rows, applied to a state. An instant is a count of microseconds; a character is its
-- code point.
pub mod Rows
use tt_aiops_platform.Prelude.{
  ℕ, String, Bool, true, false, not, ◌&&◌, ◌||◌, Option, none, some, List, [], ◌∷◌, if◌then◌else◌,
  ltb, leb, eqb, ◌==◌, string_eq, triple_eq, opt_eq, is_some_and,
}
use tt_aiops_platform.Prelude.Maps
use tt_aiops_platform.TosAvail.State.{RowKey, JobRow, State, is_busy}

abbrev pub Instant : Type 0
Instant = ℕ

-- One row of the change history: the job row after an insert or update, or its deletion.
pub record Change : Type 0 where
  pub scn : ℕ
  pub ts : Instant
  pub ty : ℕ
  pub key : RowKey
  pub ytno : Option String
  pub ys : String
  pub jobtype : Option String
  pub program : Option String

unfoldable pub ty_rank : ℕ → ℕ
ty_rank ty = if eqb ty b'U' then 0 else if eqb ty b'D' then 1 else 2

-- `(a.ts, ty_rank(a.ty)) <= (b.ts, ty_rank(b.ty))`
unfoldable pub change_le : Change → Change → Bool
unfolding ty_rank
change_le a b =
    if ltb a.ts b.ts
    then true
    else if eqb a.ts b.ts
    then leb (ty_rank a.ty) (ty_rank b.ty)
    else false

-- The change that took each truck, and the change that freed it.
pub record Blame : Type 0 where
  pub took : List (String × Change)
  pub freed : List (String × Change)

-- The change leaves the truck `y` on its row, busy.
unfoldable pub still_holds : Change → String → Bool
still_holds ev y = not (eqb ev.ty b'D') && (opt_eq ev.ytno (some y) && is_busy ev.ys)

-- The first `if` of the loop: the truck that the row held is freed, unless the row still holds it.
unfoldable pub blame_freed : State → Change → List (String × Change) → List (String × Change)
unfolding still_holds
blame_freed cur ev freed = elim (Maps.lookup ev.key cur.rows) [
  | none ↦ freed
  | some prev ↦ elim prev.ytno [
    | none ↦ freed
    | some y ↦ if still_holds ev y then freed else Maps.insert y ev freed
  ]
]

-- The second `if`: a busy change takes its truck.
unfoldable pub blame_took : Change → List (String × Change) → List (String × Change)
blame_took ev took =
    if not (eqb ev.ty b'D') && is_busy ev.ys
    then elim ev.ytno [ none ↦ took | some y ↦ Maps.insert y ev took ]
    else took

-- The `match` at the end of the loop.
unfoldable pub apply_row : Change → List (RowKey × JobRow) → List (RowKey × JobRow)
apply_row ev rows =
    if eqb ev.ty b'D'
    then Maps.remove ev.key rows
    else Maps.insert ev.key (record { ytno = ev.ytno; ys = ev.ys }) rows

unfoldable pub apply_events : State → Blame → List Change → State × Blame
unfolding blame_freed blame_took apply_row
apply_events cur b [] = (cur, b)
apply_events cur b (ev ∷ evs) =
    apply_events (record cur { rows = apply_row ev cur.rows })
      (record { took = blame_took ev b.took; freed = blame_freed cur ev b.freed }) evs

unfoldable pub apply_txn : State → List Change → State × Blame
unfolding apply_events
apply_txn cur evs = apply_events cur (record { took = []; freed = [] }) evs
