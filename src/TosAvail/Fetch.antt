-- ===== src/TosAvail/Fetch.antt =====
-- crates/extractor/src/tos_avail.rs: `RawRow`, `parse_myt`, `hist_from` and `parse_fetch`. The
-- reading of a date of 14 digits by chrono is a parameter.
pub mod Guards
use Prim.Native.Char.{Char, code}
use tt_aiops_platform.Prelude.{
  ℕ, zero, suc, ◌+◌, ◌-◌, ◌*◌, ◌≡◌, String, Bool, true, false, not, ◌&&◌, ◌||◌, Option, none, some,
  List, [], ◌∷◌, ◌++◌, if◌then◌else◌, ltb, leb, eqb, ◌==◌, string_eq, triple_eq, codes, length,
  Result, ok, err,
}
use tt_aiops_platform.Prelude.Maps
use tt_aiops_platform.Prelude.Sets
use tt_aiops_platform.Core.Shift.{terminal_to_utc}
use tt_aiops_platform.TosAvail.State.{RowKey, JobRow, Machine, State}
use tt_aiops_platform.TosAvail.Txn.{Instant, Change}
use tt_aiops_platform.TosAvail.Replay.{Snapshot}
use tt_aiops_platform.TosAvail.Texts.{
  is_empty, trim_start, trim_end, trim, bind, unwrap_or, clean, digits, drop, decimal, parse_u64,
  first_code,
}

-- A row of the answer: its kind and ten texts.
pub record RawRow : Type 0 where
  pub k : String
  pub a : Option String
  pub b : Option String
  pub c : Option String
  pub d : Option String
  pub e : Option String
  pub f : Option String
  pub g : Option String
  pub h : Option String
  pub i : Option String
  pub j : Option String

-- The window of the change history; 1 s is 1000000.
unfoldable pub hist_from : Option Instant → Instant → Instant
hist_from (some a) now = a - 120 * 1000000
hist_from none now = now - (120 + 10) * 1000000

-- What the loop collects.
pub record Fetched : Type 0 where
  pub as_of : Option Instant
  pub state : State
  pub last_on : List (String × Instant)
  pub last_off : List (String × Instant)
  pub changes : List Change
  pub bad_scn : ℕ
  pub bad_hist : ℕ

-- The reasons to refuse an answer.
pub data FetchError : Type 0 where
  no_time : FetchError
  few_machines : ℕ → FetchError
  no_busy_row : ℕ → FetchError

abbrev pub min_machines : ℕ
min_machines = 100

abbrev pub min_on_for_busy_guard : ℕ
min_on_for_busy_guard = 50

-- `filter(|m| m.onoff == "O").count()`
unfoldable pub count_on : List (String × Machine) → ℕ
count_on [] = 0
count_on ((c, m) ∷ ms) = let rest = count_on ms in if m.onoff == "O" then 1 + rest else rest

abbrev pub insert_some : String → Option Instant → List (String × Instant) → List (String × Instant)
insert_some code none m = m
insert_some code (some t) m = Maps.insert code t m

abbrev pub nothing_yet : Fetched
nothing_yet = record {
  as_of = none;
  state = record { rows = []; machines = []; stopped = [] };
  last_on = [];
  last_off = [];
  changes = [];
  bad_scn = 0;
  bad_hist = 0;
}

-- The guards after the loop; what was dropped is only logged.
unfoldable pub accept : Fetched → Result FetchError (Snapshot × List Change)
unfolding count_on
accept w = elim w.as_of [
  | none ↦ err no_time
  | some t ↦
      let n = length w.state.machines in
      let n_on = count_on w.state.machines in
      if ltb n min_machines
      then err (few_machines n)
      else if eqb (length w.state.rows) 0 && leb min_on_for_busy_guard n_on
      then err (no_busy_row n_on)
      else ok (
        record { as_of = t; state = w.state; last_on = w.last_on; last_off = w.last_off },
        w.changes,
      )
]

-- `read_naive` reads the 14 digits of a date and time, the time of the terminal's clock.
module _ (read_naive : List ℕ → Option Instant) where
  unfoldable pub parse_myt : String → Option Instant
  unfolding trim digits
  parse_myt raw =
      let s = codes (trim raw) in
      bind (digits 14 s) (λ ds. bind (read_naive ds) (λ t. elim (digits 3 (drop 14 s)) [
        | none ↦ some (terminal_to_utc t)
        | some ms ↦ some (terminal_to_utc t + decimal 0 ms * 1000)
      ]))

  -- The arms of the `match`.
  unfoldable pub add_machine : RawRow → Fetched → Fetched
  unfolding Maps.insert clean
  add_machine r w = elim (clean r.a) [
    | none ↦ w
    | some name ↦ record w {
      last_on = insert_some name (bind r.e parse_myt) w.last_on;
      last_off = insert_some name (bind r.f parse_myt) w.last_off;
      state = record w.state {
        machines =
            Maps.insert name (record { onoff = unwrap_or (clean r.c) ""; pool = clean r.d })
              w.state.machines;
      };
    }
  ]

  unfoldable pub add_row : RawRow → Fetched → Fetched
  unfolding Maps.insert clean
  add_row r w = elim (clean r.a) [
    | none ↦ w
    | some contno ↦ elim (clean r.b) [
      | none ↦ w
      | some point ↦ record w {
        state = record w.state {
          rows =
              Maps.insert (contno, point, unwrap_or (clean r.c) "")
                (record { ytno = clean r.d; ys = unwrap_or (clean r.e) "X" }) w.state.rows;
        };
      }
    ]
  ]

  unfoldable pub add_stopped : RawRow → Fetched → Fetched
  unfolding Sets.insert clean
  add_stopped r w = elim (clean r.a) [
    | none ↦ w
    | some name ↦ record w { state = record w.state { stopped = Sets.insert name w.state.stopped } }
  ]

  -- The four fields that a change needs: its time, its kind and the two parts of the key.
  unfoldable pub change_head : RawRow → Option (Instant × ℕ × String × String)
  unfolding clean trim
  change_head r = bind (bind r.a parse_myt) (λ ts.
      bind (bind r.b (λ s. first_code (trim s))) (λ ty.
        bind (clean r.c) (λ contno. bind (clean r.d) (λ point. some (ts, ty, contno, point)))))

  unfoldable pub add_change : RawRow → Fetched → Fetched
  unfolding change_head clean trim parse_u64
  add_change r w = elim (change_head r) [
    | none ↦ record w { bad_hist = w.bad_hist + 1 }
    | some head ↦ elim (bind r.j (λ s. parse_u64 (codes (trim s)))) [
      | none ↦ record w { bad_scn = w.bad_scn + 1 }
      | some scn ↦ record w {
        changes =
            w.changes
            ++ record {
              scn = scn;
              ts = head.0;
              ty = head.1;
              key = (head.2, head.3, unwrap_or (clean r.e) "");
              ytno = clean r.f;
              ys = unwrap_or (clean r.g) "X";
              jobtype = clean r.h;
              program = clean r.i;
            }
              ∷ [];
      }
    ]
  ]

  unfoldable pub add_raw : RawRow → Fetched → Fetched
  unfolding add_machine add_row add_stopped add_change
  add_raw r w =
      if r.k == "T"
      then record w { as_of = bind r.a parse_myt }
      else if r.k == "M"
      then add_machine r w
      else if r.k == "B"
      then add_row r w
      else if r.k == "W"
      then add_stopped r w
      else if r.k == "H"
      then add_change r w
      else w

  unfoldable pub collect_rows : List RawRow → Fetched → Fetched
  unfolding add_raw
  collect_rows [] w = w
  collect_rows (r ∷ rs) w = collect_rows rs (add_raw r w)

  unfoldable pub parse_fetch : List RawRow → Result FetchError (Snapshot × List Change)
  unfolding accept collect_rows
  parse_fetch rows = accept (collect_rows rows nothing_yet)
