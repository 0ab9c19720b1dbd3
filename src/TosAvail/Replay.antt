-- ===== src/TosAvail/Replay.antt =====
-- crates/extractor/src/tos_avail.rs: `Anchor`, `Logons`, `Snapshot`, `Replay` and `replay`.
pub mod History
pub mod Commits
use tt_aiops_platform.Prelude.{
  ℕ, ◌+◌, ◌*◌, ◌/◌, max, String, Bool, true, false, not, ◌&&◌, Option, none, some, List, [], ◌∷◌,
  ◌++◌, map, if◌then◌else◌, ltb, leb, eqb, ◌==◌, string_eq, str_lt, select, length, is_some_and,
}
use tt_aiops_platform.Prelude.Maps
use tt_aiops_platform.Prelude.Sets
use tt_aiops_platform.Prelude.Sorting.{sort_by}
use tt_aiops_platform.TosAvail.State.{Machine, State, free_set}
use tt_aiops_platform.TosAvail.Txn.{Instant, Change, Blame, change_le, apply_txn}
use tt_aiops_platform.TosAvail.Diff.{Transition, step_ts, diff_into}

-- The last login and logout of each truck.
pub record Logons : Type 0 where
  pub last_on : List (String × Instant)
  pub last_off : List (String × Instant)

pub record Anchor : Type 0 where
  pub as_of : Instant
  pub state : State
  pub scn : ℕ
  pub last_ts : Instant
  pub logons : Option Logons

pub record Snapshot : Type 0 where
  pub as_of : Instant
  pub state : State
  pub last_on : List (String × Instant)
  pub last_off : List (String × Instant)

pub record Replay : Type 0 where
  pub transitions : List Transition
  pub replay_free : List String
  pub truth_free : List String
  pub n_events : ℕ
  pub n_txn : ℕ
  pub n_late : ℕ
  pub n_logon : ℕ
  pub scn : ℕ
  pub last_ts : Instant

-- `t.trunc_subsecs(0)`: the origin of the instants is a whole second.
abbrev pub trunc_second : Instant → Instant
trunc_second t = t / 1000000 * 1000000

-- The time differs from what the anchor saw; an old anchor, which saw none, goes by its second.
unfoldable pub is_new : Instant → Option (List (String × Instant)) → String → Instant → Bool
is_new s0 none c t = leb s0 t
is_new s0 (some m) c t = elim (Maps.lookup c m) [ none ↦ true | some u ↦ not (eqb u t) ]

-- A login (`on`) or logout of a truck.
pub record Logon : Type 0 where
  pub at : Instant
  pub code : String
  pub on : Bool

-- The loop over `last_on`, or over `last_off`.
unfoldable pub new_logons :
    Instant
    → Instant
    → Option (List (String × Instant))
    → Bool
    → List (String × Instant)
    → List Logon
new_logons s0 as_of seen on [] = []
new_logons s0 as_of seen on ((c, t) ∷ m) =
    let rest = new_logons s0 as_of seen on m in
    if leb t as_of && is_new s0 seen c t then record { at = t; code = c; on = on } ∷ rest else rest

-- `(at, code, on)` in the order of tuples; a logout comes before a login.
unfoldable pub logon_le : Logon → Logon → Bool
logon_le a b =
    if ltb a.at b.at
    then true
    else if eqb a.at b.at
    then (if str_lt a.code b.code
        then true
        else if a.code == b.code
        then not (a.on && not b.on)
        else false)
    else false

-- `txns.entry(c.scn).or_default().push(c)`, the groups in the order of their numbers.
unfoldable pub push_txn : Change → List (ℕ × List Change) → List (ℕ × List Change)
push_txn c [] = (c.scn, c ∷ []) ∷ []
push_txn c ((n, evs) ∷ txns) =
    let rest = push_txn c txns in
    if eqb c.scn n
    then (n, evs ++ c ∷ []) ∷ txns
    else if ltb c.scn n
    then (c.scn, c ∷ []) ∷ (n, evs) ∷ txns
    else (n, evs) ∷ rest

-- The loop over the changes committed after the anchor.
unfoldable pub group_txns : List Change → List (ℕ × List Change) → List (ℕ × List Change)
group_txns [] txns = txns
group_txns (c ∷ cs) txns = group_txns cs (push_txn c txns)

-- The latest time of a non-empty group.
unfoldable pub max_ts : List Change → Instant
max_ts [] = 0
max_ts (c ∷ cs) = max c.ts (max_ts cs)

unfoldable pub max_scn : List Change → ℕ
max_scn [] = 0
max_scn (c ∷ cs) = max c.scn (max_scn cs)

unfoldable pub count_events : List (ℕ × List Change) → ℕ
count_events [] = 0
count_events ((n, evs) ∷ txns) = length evs + count_events txns

-- The variables of the loop.
pub record Run : Type 0 where
  pub cur : State
  pub free : List String
  pub out : List Transition
  pub last : Instant
  pub n_late : ℕ

-- The step that both kinds of event end in: push the difference to the new free set, if there is one.
unfoldable pub advance : Run → State → Instant → Option Blame → List String → Bool → Run
advance r cur want blame changed late =
    let after = free_set cur in
    if Sets.same after r.free
    then record r { cur = cur }
    else (let ts = step_ts want r.last in
        record {
          cur = cur;
          free = after;
          out = diff_into r.out r.free after ts blame changed late;
          last = ts;
          n_late =
              if late
              then r.n_late
                + (length (Sets.difference after r.free) + length (Sets.difference r.free after))
              else r.n_late;
        })

-- The machine table after a logon: the machine is made if it is not there, with the snapshot's pool.
unfoldable pub set_onoff : State → State → String → Bool → State
set_onoff cur snap code on =
    let pool : Option String = elim (Maps.lookup code snap.machines) [
      | none ↦ none
      | some m ↦ m.pool
    ] in
    let old : Machine = elim (Maps.lookup code cur.machines) [
      | none ↦ record { onoff = "F"; pool = pool }
      | some m ↦ m
    ] in
    record cur {
      machines = Maps.insert code (record old { onoff = if on then "O" else "F" }) cur.machines;
    }

unfoldable pub was_on : State → String → Bool
was_on cur code = is_some_and (Maps.lookup code cur.machines) (λ m. m.onoff == "O")

abbrev pub bool_eq : Bool → Bool → Bool
bool_eq true b = b
bool_eq false b = not b

module _ (anchor : Anchor) (snap : Snapshot) where
  unfoldable pub apply_logon : Run → Logon → Run
  apply_logon r l =
      let cur = set_onoff r.cur snap.state l.code l.on in
      if bool_eq (was_on r.cur l.code) l.on
      then record r { cur = cur }
      else advance r cur (max l.at anchor.as_of) none (l.code ∷ []) false

  -- `while li < logon.len() && logon[li].0 < g_ts`
  unfoldable pub logons_before : Instant → Run → List Logon → Run × List Logon
  logons_before g_ts r [] = (r, [])
  logons_before g_ts r (l ∷ ls) =
      let rest = logons_before g_ts (apply_logon r l) ls in
      if ltb l.at g_ts then rest else (r, l ∷ ls)

  -- One commit, its changes in the order of the statements.
  unfoldable pub apply_commit : Run → List Change → Run
  apply_commit r evs =
      let g_ts = max_ts evs in
      let (cur, blame) = apply_txn r.cur (sort_by change_le evs) in
      advance r cur (max g_ts anchor.as_of) (some blame) [] (leb g_ts anchor.as_of)

  unfoldable pub run_txns : Run → List Logon → List (ℕ × List Change) → Run × List Logon
  run_txns r logon [] = (r, logon)
  run_txns r logon ((n, evs) ∷ txns) =
      let (r', logon') = logons_before (max_ts evs) r logon in
      run_txns (apply_commit r' evs) logon' txns

  unfoldable pub run_logons : Run → List Logon → Run
  run_logons r [] = r
  run_logons r (l ∷ ls) = run_logons (apply_logon r l) ls

  unfoldable pub all_logons : List Logon
  all_logons =
      let s0 = trunc_second anchor.as_of in
      sort_by logon_le (
        new_logons s0 snap.as_of (elim anchor.logons [ none ↦ none | some l ↦ some l.last_on ]) true
          snap.last_on
        ++ new_logons s0 snap.as_of (elim anchor.logons [ none ↦ none | some l ↦ some l.last_off ])
            false snap.last_off)

  unfoldable pub start_run : Run
  start_run = record {
    cur = anchor.state;
    free = free_set anchor.state;
    out = [];
    last = max anchor.as_of anchor.last_ts;
    n_late = 0;
  }

abbrev pub reconciled : Instant → Bool → String → Transition
reconciled ts enter y = record {
  ytno = y;
  ts = ts;
  enter = enter;
  cause = "reconcile";
  program = none;
  contno = none;
  jobtype = none;
}

-- The check against the snapshot: the transitions and the last time after it.
unfoldable pub reconcile : Run → List String → Instant → List Transition × Instant
reconcile r truth as_of =
    if Sets.same truth r.free
    then (r.out, r.last)
    else (let ts = step_ts as_of r.last in
        (
          r.out
              ++ (map (reconciled ts true) (Sets.difference truth r.free)
                  ++ map (reconciled ts false) (Sets.difference r.free truth)),
          ts,
        ))

unfoldable pub replay : Anchor → List Change → Snapshot → Replay
replay anchor changes snap =
    let logon = all_logons anchor snap in
    let txns = group_txns (select (λ c. ltb anchor.scn c.scn) changes) [] in
    let (r, left) = run_txns anchor snap (start_run anchor snap) logon txns in
    let done = run_logons anchor snap r left in
    let truth = free_set snap.state in
    let (out, last) = reconcile done truth snap.as_of in
    record {
      transitions = out;
      replay_free = done.free;
      truth_free = truth;
      n_events = count_events txns;
      n_txn = length txns;
      n_late = done.n_late;
      n_logon = length logon;
      scn = max (max_scn changes) anchor.scn;
      last_ts = last;
    }
