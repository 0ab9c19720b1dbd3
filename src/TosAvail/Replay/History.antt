-- ===== src/TosAvail/Replay/History.antt =====
-- The history of each truck in the transitions of a replay.
use tt_aiops_platform.Prelude.{
  ℕ, refl, sym, subst, String, Bool, true, false, Option, none, List, [], ◌∷◌, max, arith, inl, inr,
  Bool-cases, ltb, select,
}
use tt_aiops_platform.Prelude.Sets
use tt_aiops_platform.TosAvail.State.{State, free_set}
use tt_aiops_platform.TosAvail.State.FreeSet.{free_set-NoDup}
use tt_aiops_platform.TosAvail.Txn.{Instant, Change, Blame}
use tt_aiops_platform.TosAvail.Diff.{step_ts}
use tt_aiops_platform.TosAvail.Diff.Trace.{
  Trace, Trace-append, Trace-difference, diff_into-Trace, lt-step_ts,
}
use tt_aiops_platform.TosAvail.Replay.{
  Anchor, Snapshot, Logon, Run, advance, was_on, bool_eq, apply_logon, logons_before, apply_commit,
  group_txns, all_logons, max_ts, run_txns, run_logons, start_run, reconciled, reconcile, replay,
}

module _ (y : String) (listed : Bool) (low : Instant) where
  -- The transitions so far take the truck from `listed` to its place in the free set.
  abbrev IsRun : Run → Type 0
  IsRun r = Sets.NoDup r.free × Trace y listed low r.out (Sets.contains y r.free) r.last

  advance-IsRun :
      (r : Run) (cur : State) (want : Instant) (blame : Option Blame) (changed : List String)
      (late : Bool)
      → IsRun r
      → IsRun (advance r cur want blame changed late)
  unfolding advance
  advance-IsRun r cur want blame changed late h =
      elim (Bool-cases (Sets.same (free_set cur) r.free)) [
        | inl e ↦ rw (e, advance) h
        | inr e ↦
            rw (e, advance)
              (
                free_set-NoDup cur,
                diff_into-Trace y r.out r.free (free_set cur) (step_ts want r.last) low r.last blame
                    changed late listed (lt-step_ts want r.last) h.0 (free_set-NoDup cur) h.1,
              )
      ]

  module _ (anchor : Anchor) (snap : Snapshot) where
    apply_logon-IsRun : (r : Run) (l : Logon) → IsRun r → IsRun (apply_logon anchor snap r l)
    unfolding apply_logon
    apply_logon-IsRun r l h = elim (Bool-cases (bool_eq (was_on r.cur l.code) l.on)) [
      | inl e ↦ rw e h
      | inr e ↦ rw e (advance-IsRun r _ _ none (l.code ∷ []) false h)
    ]

    apply_commit-IsRun :
        (r : Run) (evs : List Change) → IsRun r → IsRun (apply_commit anchor snap r evs)
    unfolding apply_commit
    apply_commit-IsRun r evs h = advance-IsRun r _ _ _ [] _ h

    logons_before-IsRun :
        (ls : List Logon) (g_ts : Instant) (r : Run)
        → IsRun r
        → IsRun (logons_before anchor snap g_ts r ls).0
    unfolding logons_before
    logons_before-IsRun [] g_ts r h = h
    logons_before-IsRun (l ∷ ls) g_ts r h = elim (Bool-cases (ltb l.at g_ts)) [
      | inl e ↦
          rw e (logons_before-IsRun ls g_ts (apply_logon anchor snap r l) (apply_logon-IsRun r l h))
      | inr e ↦ rw e h
    ]

    run_txns-IsRun :
        (txns : List (ℕ × List Change)) (r : Run) (ls : List Logon)
        → IsRun r
        → IsRun (run_txns anchor snap r ls txns).0
    unfolding run_txns
    run_txns-IsRun [] r ls h = h
    run_txns-IsRun ((n, evs) ∷ txns) r ls h =
        let before = logons_before anchor snap (max_ts evs) r ls in
        run_txns-IsRun txns (apply_commit anchor snap before.0 evs) before.1
          (apply_commit-IsRun before.0 evs (logons_before-IsRun ls (max_ts evs) r h))

    run_logons-IsRun : (ls : List Logon) (r : Run) → IsRun r → IsRun (run_logons anchor snap r ls)
    unfolding run_logons
    run_logons-IsRun [] r h = h
    run_logons-IsRun (l ∷ ls) r h =
        run_logons-IsRun ls (apply_logon anchor snap r l) (apply_logon-IsRun r l h)

  reconcile-Trace :
      (r : Run) (truth : List String) (as_of : Instant)
      → Sets.NoDup truth
      → IsRun r
      → Trace y listed low
          (reconcile r truth as_of).0
          (Sets.contains y truth)
          (reconcile r truth as_of).1
  unfolding reconcile
  reconcile-Trace r truth as_of d h = elim (Bool-cases (Sets.same truth r.free)) [
    | inl e ↦ rw e (
        subst (λ s. Trace y listed low r.out (Sets.contains y s) r.last)
          (sym (Sets.eq_of_same truth r.free e)) h.1)
    | inr e ↦
        let ts = step_ts as_of r.last in
        rw e (
          Trace-append y r.out _ listed (Sets.contains y r.free) (Sets.contains y truth) low r.last
            ts h.1
            (Trace-difference (reconciled ts true) (reconciled ts false) ts (λ x. refl) (λ x. refl)
              (λ x. refl) (λ x. refl) (λ x. refl) (λ x. refl) y r.free truth r.last
              (lt-step_ts as_of r.last) h.0 d))
  ]

-- For every truck the transitions of a replay start from whether the anchor's free set holds it, change
-- it each time, at times that go up strictly from the last known one, and end in whether the
-- snapshot's free set holds it; no time is after the replay's `last_ts`.
pub replay-Trace :
    (anchor : Anchor) (changes : List Change) (snap : Snapshot) (y : String)
    → let r = replay anchor changes snap in
      Trace y
        (Sets.contains y (free_set anchor.state))
        (max anchor.as_of anchor.last_ts)
        r.transitions
        (Sets.contains y (free_set snap.state))
        r.last_ts
unfolding replay start_run
replay-Trace anchor changes snap y =
    let listed = Sets.contains y (free_set anchor.state) in
    let low = max anchor.as_of anchor.last_ts in
    let start : IsRun y listed low (start_run anchor snap) =
      (free_set-NoDup anchor.state, (refl, omega arith)) in
    let txns = group_txns (select (λ c. ltb anchor.scn c.scn) changes) [] in
    let commits = run_txns anchor snap (start_run anchor snap) (all_logons anchor snap) txns in
    let done = run_logons anchor snap commits.0 commits.1 in
    reconcile-Trace y listed low done (free_set snap.state) snap.as_of (free_set-NoDup snap.state) (
      run_logons-IsRun y listed low anchor snap commits.1 commits.0 (
        run_txns-IsRun y listed low anchor snap txns (start_run anchor snap)
          (all_logons anchor snap) start))
