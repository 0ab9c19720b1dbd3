-- ===== src/TosAvail/Txn/Rows.antt =====
-- The rows after one commit, as a map: for each key the last of its changes wins.
use tt_aiops_platform.Prelude.{
  ◌≡◌, refl, ap, ◌∙◌, Option, some, none, List, [], ◌∷◌, inl, inr, Bool-cases, if◌then◌else◌, eqb,
  ◌==◌, triple_eq,
}
use tt_aiops_platform.Prelude.Maps
use tt_aiops_platform.TosAvail.State.{RowKey, JobRow, State}
use tt_aiops_platform.TosAvail.Txn.{
  Change, Blame, apply_row, blame_took, blame_freed, apply_events, apply_txn,
}

-- The row of the key after a change of it.
abbrev pub row_of : Change → Option JobRow
row_of ev = if eqb ev.ty b'D' then none else some (record { ytno = ev.ytno; ys = ev.ys })

-- What the changes make of the row `k`, from its row before.
abbrev pub last_row : RowKey → Option JobRow → List Change → Option JobRow
last_row k before [] = before
last_row k before (ev ∷ evs) = last_row k (if ev.key == k then row_of ev else before) evs

apply_row_lem :
    (k : RowKey) (ev : Change) (rows : List (RowKey × JobRow))
    → Maps.lookup k (apply_row ev rows) ≡ (if ev.key == k then row_of ev else Maps.lookup k rows)
unfolding apply_row
apply_row_lem k ev rows = elim (Bool-cases (eqb ev.ty b'D')) [
  | inl e ↦ rw e (Maps.lookup-remove ev.key k rows)
  | inr e ↦ rw e (Maps.lookup-insert ev.key k (record { ytno = ev.ytno; ys = ev.ys }) rows)
]

apply_events_lem :
    (k : RowKey) (cur : State) (b : Blame) (evs : List Change)
    → (Maps.lookup k (apply_events cur b evs).0.rows ≡ last_row k (Maps.lookup k cur.rows) evs)
      × ((apply_events cur b evs).0.machines ≡ cur.machines)
unfolding apply_events
apply_events_lem k cur b [] = (refl, refl)
apply_events_lem k cur b (ev ∷ evs) =
    let rest =
      apply_events_lem k (record cur { rows = apply_row ev cur.rows })
        (record { took = blame_took ev b.took; freed = blame_freed cur ev b.freed }) evs in
    (rest.0 ∙ ap (λ r. last_row k r evs) (apply_row_lem k ev cur.rows), rest.1)

-- After a commit every key has the row that the last of its changes gives (none if that is a
-- deletion) and its row before where no change names it; the machines stay as they were.
pub apply_txn_lem :
    (k : RowKey) (cur : State) (evs : List Change)
    → (Maps.lookup k (apply_txn cur evs).0.rows ≡ last_row k (Maps.lookup k cur.rows) evs)
      × ((apply_txn cur evs).0.machines ≡ cur.machines)
unfolding apply_txn
apply_txn_lem k cur evs = apply_events_lem k cur (record { took = []; freed = [] }) evs
