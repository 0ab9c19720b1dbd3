-- ===== src/TosAvail/Fetch/Guards.antt =====
-- What an accepted answer guarantees, and that no change is dropped unseen.
use tt_aiops_platform.Prelude.{
  ℕ, ◌+◌, ◌≡◌, ◌↔◌, ◌≤◌, ◌<◌, ◌⊎◌, refl, sym, ap, subst, String, true, ◌&&◌, Option, List, [], ◌∷◌,
  if◌then◌else◌, ltb, leb, eqb, ◌==◌, string_eq, triple_eq, length, length-append, ok, arith, inl,
  inr, Bool-cases, Option-cases, eq_iff,
}
use tt_aiops_platform.Prelude.Maps
use tt_aiops_platform.Prelude.Sets
use tt_aiops_platform.TosAvail.State.{State, free_set}
use tt_aiops_platform.TosAvail.State.FreeSet.{IsDispatchable, free_set_iff}
use tt_aiops_platform.TosAvail.Txn.{Instant, Change}
use tt_aiops_platform.TosAvail.Replay.{Snapshot}
use tt_aiops_platform.TosAvail.Fetch.{
  RawRow, Fetched, codes, change_head, min_machines, min_on_for_busy_guard, count_on, parse_myt,
  add_machine, add_row, add_stopped, add_change, add_raw, collect_rows, nothing_yet, accept,
  parse_fetch,
}
use tt_aiops_platform.TosAvail.Texts.{clean, bind, trim, parse_u64}

-- The rows of the change history.
abbrev pub count_history : List RawRow → ℕ
count_history [] = 0
count_history (r ∷ rs) = let rest = count_history rs in if r.k == "H" then 1 + rest else rest

-- No truck, no row and no stop stands twice.
abbrev pub IsUnique : State → Type 0
IsUnique s = Maps.Distinct s.machines × Maps.Distinct s.rows × Sets.NoDup s.stopped

-- An accepted answer: a hundred machines at least, and a job row unless few trucks are logged in.
pub record IsSane (s : State) : Type 0 where
  pub unique : IsUnique s
  pub enough : min_machines ≤ length s.machines
  pub has_rows : (0 < length s.rows) ⊎ (count_on s.machines < min_on_for_busy_guard)

abbrev pub seen_changes : Fetched → ℕ
seen_changes w = length w.changes + (w.bad_scn + w.bad_hist)

accept-IsSane :
    (w : Fetched) (snap : Snapshot) (changes : List Change)
    → IsUnique w.state
    → accept w ≡ ok (snap, changes)
    → IsSane snap.state × (changes ≡ w.changes)
unfolding accept
accept-IsSane w snap changes u h = elim (Option-cases w.as_of) [
  | inl e ↦ absurd (cc (rw (e, accept) at h))
  | inr (t, e) ↦
      let k = rw (e, accept) at h in
      elim (Bool-cases (ltb (length w.state.machines) min_machines)) [
        | inl few ↦ absurd (cc (rw (few, accept) at k))
        | inr many ↦
            let k2 = rw (many, accept) at k in
            elim (Bool-cases (
              eqb (length w.state.rows) 0
              && leb min_on_for_busy_guard (count_on w.state.machines))) [
                | inl idle ↦ absurd (cc (rw (idle, accept) at k2))
                | inr fine ↦
                    let k3 = rw (fine, accept) at k2 in
                    let same_snap : record {
                      as_of = t;
                      state = w.state;
                      last_on = w.last_on;
                      last_off = w.last_off;
                    }
                        ≡ snap =
                      cc in
                    let sane : IsSane w.state = record {
                      unique = u;
                      enough = ground arith;
                      has_rows = ground arith;
                    } in
                    (subst IsSane (ap (λ x. x.state) same_snap) sane, cc)
              ]
      ]
]

module _ (read_naive : List ℕ → Option Instant) where
  abbrev at : Option String → Option Instant
  at o = bind o (parse_myt read_naive)

  add_machine-IsUnique :
      (r : RawRow) (w : Fetched) → IsUnique w.state → IsUnique (add_machine read_naive r w).state
  unfolding add_machine
  add_machine-IsUnique r w h = elim (Option-cases (clean r.a)) [
    | inl e ↦ rw (e, add_machine) h
    | inr (name, e) ↦
        rw (e, add_machine) (Maps.insert-Distinct name _ w.state.machines h.0, h.1, h.2)
  ]

  add_row-IsUnique :
      (r : RawRow) (w : Fetched) → IsUnique w.state → IsUnique (add_row read_naive r w).state
  unfolding add_row
  add_row-IsUnique r w h = elim (Option-cases (clean r.a)) [
    | inl e ↦ rw (e, add_row) h
    | inr (contno, e) ↦
        rw (e, add_row)
          (elim (Option-cases (clean r.b)) [
            | inl k ↦ rw (k, add_row) h
            | inr (point, k) ↦ rw (k, add_row) (h.0, Maps.insert-Distinct _ _ w.state.rows h.1, h.2)
          ])
  ]

  add_stopped-IsUnique :
      (r : RawRow) (w : Fetched) → IsUnique w.state → IsUnique (add_stopped read_naive r w).state
  unfolding add_stopped
  add_stopped-IsUnique r w h = elim (Option-cases (clean r.a)) [
    | inl e ↦ rw (e, add_stopped) h
    | inr (name, e) ↦ rw (e, add_stopped) (h.0, h.1, Sets.insert-NoDup name w.state.stopped h.2)
  ]

  add_change-state : (r : RawRow) (w : Fetched) → (add_change read_naive r w).state ≡ w.state
  unfolding add_change
  add_change-state r w = elim (Option-cases (change_head read_naive r)) [
    | inl e ↦ rw (e, add_change) refl
    | inr (head, e) ↦
        rw (e, add_change)
          (elim (Option-cases (bind r.j (λ s. parse_u64 (codes (trim s))))) [
            | inl k ↦ rw (k, add_change) refl
            | inr (scn, k) ↦ rw (k, add_change) refl
          ])
  ]

  add_change-seen :
      (r : RawRow) (w : Fetched) → seen_changes (add_change read_naive r w) ≡ 1 + seen_changes w
  unfolding add_change
  add_change-seen r w = elim (Option-cases (change_head read_naive r)) [
    | inl e ↦ rw (e, add_change) (omega arith)
    | inr (head, e) ↦
        rw (e, add_change)
          (elim (Option-cases (bind r.j (λ s. parse_u64 (codes (trim s))))) [
            | inl k ↦ rw (k, add_change) (omega arith)
            | inr (scn, k) ↦ rw (k, add_change) (omega (arith, length-append w.changes (_ ∷ [])))
          ])
  ]

  add_raw-IsUnique :
      (r : RawRow) (w : Fetched) → IsUnique w.state → IsUnique (add_raw read_naive r w).state
  unfolding add_raw
  add_raw-IsUnique r w h = elim (Bool-cases (r.k == "T")) [
    | inl e ↦ rw (e, add_raw) h
    | inr e ↦
        rw (e, add_raw)
          (elim (Bool-cases (r.k == "M")) [
            | inl m ↦ rw (m, add_raw) (add_machine-IsUnique r w h)
            | inr m ↦
                rw (m, add_raw)
                  (elim (Bool-cases (r.k == "B")) [
                    | inl b ↦ rw (b, add_raw) (add_row-IsUnique r w h)
                    | inr b ↦
                        rw (b, add_raw)
                          (elim (Bool-cases (r.k == "W")) [
                            | inl s ↦ rw (s, add_raw) (add_stopped-IsUnique r w h)
                            | inr s ↦
                                rw (s, add_raw)
                                  (elim (Bool-cases (r.k == "H")) [
                                    | inl c ↦
                                        rw (c, add_raw)
                                          (subst IsUnique (sym (add_change-state r w)) h)
                                    | inr c ↦ rw (c, add_raw) h
                                  ])
                          ])
                  ])
          ])
  ]

  collect_rows-IsUnique :
      (rs : List RawRow) (w : Fetched)
      → IsUnique w.state
      → IsUnique (collect_rows read_naive rs w).state
  unfolding collect_rows
  collect_rows-IsUnique [] w h = h
  collect_rows-IsUnique (r ∷ rs) w h =
      collect_rows-IsUnique rs (add_raw read_naive r w) (add_raw-IsUnique r w h)

  add_machine-seen :
      (r : RawRow) (w : Fetched) → seen_changes (add_machine read_naive r w) ≡ seen_changes w
  unfolding add_machine
  add_machine-seen r w = elim (Option-cases (clean r.a)) [
    | inl e ↦ rw (e, add_machine) refl
    | inr (name, e) ↦ rw (e, add_machine) refl
  ]

  add_row-seen : (r : RawRow) (w : Fetched) → seen_changes (add_row read_naive r w) ≡ seen_changes w
  unfolding add_row
  add_row-seen r w = elim (Option-cases (clean r.a)) [
    | inl e ↦ rw (e, add_row) refl
    | inr (contno, e) ↦
        rw (e, add_row)
          (elim (Option-cases (clean r.b)) [
            | inl k ↦ rw (k, add_row) refl
            | inr (point, k) ↦ rw (k, add_row) refl
          ])
  ]

  add_stopped-seen :
      (r : RawRow) (w : Fetched) → seen_changes (add_stopped read_naive r w) ≡ seen_changes w
  unfolding add_stopped
  add_stopped-seen r w = elim (Option-cases (clean r.a)) [
    | inl e ↦ rw (e, add_stopped) refl
    | inr (name, e) ↦ rw (e, add_stopped) refl
  ]

  other_kind : (k kind : String) → (k == kind) ≡ true → (k == "H") ≡ (kind == "H")
  other_kind k kind e = ap (λ x. x == "H") ((eq_iff k kind).0 e)

  -- One more for a row of the history, and only for that.
  add_raw-seen :
      (r : RawRow) (w : Fetched)
      → seen_changes (add_raw read_naive r w) ≡ (if r.k == "H" then 1 else 0) + seen_changes w
  unfolding add_raw
  add_raw-seen r w = elim (Bool-cases (r.k == "T")) [
    | inl e ↦ rw (other_kind r.k "T" e) (rw (e, add_raw) (omega arith))
    | inr e ↦
        rw (e, add_raw)
          (elim (Bool-cases (r.k == "M")) [
            | inl m ↦
                rw (other_kind r.k "M" m) (rw (m, add_raw) (omega (arith, add_machine-seen r w)))
            | inr m ↦
                rw (m, add_raw)
                  (elim (Bool-cases (r.k == "B")) [
                    | inl b ↦
                        rw (other_kind r.k "B" b)
                          (rw (b, add_raw) (omega (arith, add_row-seen r w)))
                    | inr b ↦
                        rw (b, add_raw)
                          (elim (Bool-cases (r.k == "W")) [
                            | inl s ↦
                                rw (other_kind r.k "W" s)
                                  (rw (s, add_raw) (omega (arith, add_stopped-seen r w)))
                            | inr s ↦
                                rw (s, add_raw)
                                  (elim (Bool-cases (r.k == "H")) [
                                    | inl c ↦ rw (c, add_raw) (add_change-seen r w)
                                    | inr c ↦ rw (c, add_raw) (omega arith)
                                  ])
                          ])
                  ])
          ])
  ]

  collect_rows-seen :
      (rs : List RawRow) (w : Fetched)
      → seen_changes (collect_rows read_naive rs w) ≡ count_history rs + seen_changes w
  unfolding collect_rows
  collect_rows-seen [] w = omega arith
  collect_rows-seen (r ∷ rs) w =
      ground (arith, collect_rows-seen rs (add_raw read_naive r w), add_raw-seen r w)

-- In an accepted answer no truck, job row or stop stands twice, there are at least 100 machines, and
-- there is a job row unless fewer than 50 trucks are logged in; the changes, with those dropped for a
-- missing commit number or another unreadable field, are as many as the history rows.
pub parse_fetch-IsSane :
    (read_naive : List ℕ → Option Instant) (rows : List RawRow) (snap : Snapshot)
    (changes : List Change)
    → parse_fetch read_naive rows ≡ ok (snap, changes)
    → IsSane snap.state
      × (let w = collect_rows read_naive rows nothing_yet in
          length changes + (w.bad_scn + w.bad_hist) ≡ count_history rows)
unfolding parse_fetch
parse_fetch-IsSane read_naive rows snap changes h =
    let w = collect_rows read_naive rows nothing_yet in
    let (sane, same) =
      accept-IsSane w snap changes (collect_rows-IsUnique read_naive rows nothing_yet (tt, tt, tt))
        h in
    (sane, omega (arith, ap length same, collect_rows-seen read_naive rows nothing_yet))

-- The free set of an accepted snapshot holds exactly the trucks that may be dispatched.
pub parse_fetch-free_set :
    (read_naive : List ℕ → Option Instant) (rows : List RawRow) (snap : Snapshot)
    (changes : List Change) (y : String)
    → parse_fetch read_naive rows ≡ ok (snap, changes)
    → (Sets.contains y (free_set snap.state) ≡ true) ↔ IsDispatchable snap.state y
parse_fetch-free_set read_naive rows snap changes y h =
    free_set_iff snap.state y (parse_fetch-IsSane read_naive rows snap changes h).0.unique.0
