-- ===== src/TosAvail/State.antt =====
-- crates/extractor/src/tos_avail.rs: `JobRow`, `Machine`, `State` and `State::free_set`.
-- Hash maps are association lists and sets are lists; their order stands for the iteration order.
pub mod FreeSet
use tt_aiops_platform.Prelude.{
  ℕ, String, Bool, true, false, not, ◌&&◌, ◌||◌, Option, none, some, List, [], ◌∷◌, if◌then◌else◌,
  ◌==◌, string_eq,
}
use tt_aiops_platform.Prelude.Sets

-- CONTNO, POINT, SEQNO.
abbrev pub RowKey : Type 0
RowKey = String × String × String

pub record JobRow : Type 0 where
  pub ytno : Option String
  pub ys : String

pub record Machine : Type 0 where
  pub onoff : String
  pub pool : Option String

pub record State : Type 0 where
  pub rows : List (RowKey × JobRow)
  pub machines : List (String × Machine)
  pub stopped : List String

-- `BUSY.contains(ys)`
unfoldable pub is_busy : String → Bool
is_busy ys = ys == "A" || (ys == "B" || (ys == "F" || (ys == "R" || (ys == "X" || ys == "Q"))))

-- The trucks of the rows with a busy status.
unfoldable pub busy_trucks : List (RowKey × JobRow) → List String
busy_trucks [] = []
busy_trucks ((k, r) ∷ rows) =
    let rest = busy_trucks rows in
    if is_busy r.ys then elim r.ytno [ some y ↦ y ∷ rest | none ↦ rest ] else rest

-- The test of `free_set` on one machine.
unfoldable pub may_dispatch : List String → List String → String → Machine → Bool
may_dispatch stopped busy c m =
    m.onoff == "O" && (not (Sets.contains c stopped) && not (Sets.contains c busy))

unfoldable pub collect_free : List String → List String → List (String × Machine) → List String
collect_free stopped busy [] = []
collect_free stopped busy ((c, m) ∷ ms) =
    let rest = collect_free stopped busy ms in
    if may_dispatch stopped busy c m then Sets.insert c rest else rest

unfoldable pub free_set : State → List String
free_set s = collect_free s.stopped (busy_trucks s.rows) s.machines
