-- ===== src/Dispatch/Holds/Written.antt =====
-- What `apply_written` holds and supersedes.
use mathlib.Core.List.Perm
use mathlib.Core.List.{Perm, perm_middle, perm_append_comm, append_assoc}
use tt_aiops_platform.Prelude.{
  ℕ, ◌≡◌, refl, ap, String, false, Option, none, some, List, [], ◌∷◌, ◌++◌, arith, if◌then◌else◌,
  ◌==◌, string_eq, eq_iff, length, ok, err, any,
}
use tt_aiops_platform.Prelude.Maps
use tt_aiops_platform.Dispatch.Holds.{
  Hold, Held, Closed, SentRow, hold_of_row, push_superseded, hold_rows, apply_written, Candidate,
  WorkItem, new_rows,
}
use tt_aiops_platform.Dispatch.Holds.Orders.{msg_ids, closed_ids, insert-perm}

closed_ids-push :
    (o : Option Hold) (out : List Closed)
    → closed_ids (push_superseded o out) ≡ closed_ids (push_superseded o []) ++ closed_ids out
unfolding push_superseded
closed_ids-push none out = refl
closed_ids-push (some h) out = refl

swap_front : (a b c : List String) → Perm (a ++ (b ++ c)) (b ++ (a ++ c))
swap_front a b c =
    rw (← append_assoc a b c)
      (rw (← append_assoc b a c) (Perm.append_right c (perm_append_comm a b)))

hold_rows-perm :
    (rows : List SentRow) (ids : List String) (ms : ℕ) (held : Held)
    → length rows ≡ length ids
    → let (after, out) = hold_rows held rows ids ms in
      Perm (closed_ids out ++ msg_ids after) (ids ++ msg_ids held)
unfolding hold_rows
hold_rows-perm [] [] ms held n = Perm.refl (msg_ids held)
hold_rows-perm [] (id ∷ ids) ms held n = absurd (ground arith)
hold_rows-perm (r ∷ rs) [] ms held n = absurd (ground arith)
hold_rows-perm (r ∷ rs) (id ∷ ids) ms held n =
    let h = hold_of_row r id ms in
    let old = closed_ids (push_superseded (Maps.lookup r.ytno held) []) in
    let next = Maps.insert r.ytno h held in
    rw (closed_ids-push (Maps.lookup r.ytno held), append_assoc)
      (Perm.trans (Perm.append_left old (hold_rows-perm rs ids ms next (omega arith))) (
        Perm.trans (swap_front old ids (msg_ids next)) (
          Perm.trans (Perm.append_left ids (insert-perm r.ytno h held))
            (perm_middle ids (msg_ids held)))))

-- No id is lost: after a successful write with one id for each row, each of the new ids and of the ids held before is held or
-- closed as superseded, as often as before.
pub apply_written-perm {ℓ} :
    (E : Type ℓ) (held : Held) (rows : List SentRow) (ids : List String) (ms : ℕ)
    → length rows ≡ length ids
    → (out : List Closed) × ((apply_written {E = E} held rows (ok (ids, ms))).1 ≡ ok out)
      × Perm
          (closed_ids out ++ msg_ids (apply_written {E = E} held rows (ok (ids, ms))).0)
          (ids ++ msg_ids held)
unfolding apply_written
apply_written-perm E held rows ids ms n =
    ((hold_rows held rows ids ms).1, refl, hold_rows-perm rows ids ms held n)

-- The order that a truck gets from a write: its last row with an id.
abbrev pub order_of : String → List SentRow → List String → ℕ → Option Hold
order_of yt [] ids ms = none
order_of yt (r ∷ rs) [] ms = none
order_of yt (r ∷ rs) (id ∷ ids) ms = elim (order_of yt rs ids ms) [
  | some h ↦ some h
  | none ↦
      if r.ytno == yt
      then some (record { contno = r.contno; sent_ms = ms; msg_id = id; kind = r.kind })
      else none
]

hold_rows-lookup :
    (rows : List SentRow) (ids : List String) (ms : ℕ) (held : Held) (yt : String)
    → Maps.lookup yt (hold_rows held rows ids ms).0
      ≡ elim (order_of yt rows ids ms) [ some h ↦ some h | none ↦ Maps.lookup yt held ]
unfolding hold_rows hold_of_row
hold_rows-lookup [] ids ms held yt = refl
hold_rows-lookup (r ∷ rs) [] ms held yt = refl
hold_rows-lookup (r ∷ rs) (id ∷ ids) ms held yt =
    let h = hold_of_row r id ms in
    ground (
      arith,
      hold_rows-lookup rs ids ms (Maps.insert r.ytno h held) yt,
      Maps.lookup-insert r.ytno yt h held,
    )

-- After a write a truck holds its last new order if it has one, and what it held before if not; after
-- a failed write every truck holds what it held.
pub apply_written-lookup {ℓ} :
    (E : Type ℓ) (held : Held) (rows : List SentRow) (ids : List String) (ms : ℕ) (e : E)
    (yt : String)
    → (Maps.lookup yt (apply_written {E = E} held rows (ok (ids, ms))).0
        ≡ elim (order_of yt rows ids ms) [ some h ↦ some h | none ↦ Maps.lookup yt held ])
      × (Maps.lookup yt (apply_written held rows (err e)).0 ≡ Maps.lookup yt held)
unfolding apply_written
apply_written-lookup E held rows ids ms e yt = (hold_rows-lookup rows ids ms held yt, refl)

-- No truck stands twice.
abbrev pub TrucksDiffer : List (Candidate × WorkItem) → Type 0
TrucksDiffer [] = Unit
TrucksDiffer ((v, w) ∷ pairs) = (any (λ p. p.0.ytno == v.ytno) pairs ≡ false) × TrucksDiffer pairs

-- A truck of the rows that has no order and is in no later row.
abbrev Fresh : Held → List SentRow → Type 0
Fresh held [] = Unit
Fresh held (r ∷ rs) =
    (Maps.has_key r.ytno held ≡ false) × (any (λ q. q.ytno == r.ytno) rs ≡ false) × Fresh held rs

any-new_rows :
    (held : Held) (yt : String) (pairs : List (Candidate × WorkItem))
    → any (λ p. p.0.ytno == yt) pairs ≡ false
    → any (λ q. q.ytno == yt) (new_rows held pairs) ≡ false
unfolding new_rows
any-new_rows held yt [] h = refl
any-new_rows held yt ((v, w) ∷ pairs) h = ground (arith, any-new_rows held yt pairs)

new_rows-Fresh :
    (held : Held) (pairs : List (Candidate × WorkItem))
    → TrucksDiffer pairs
    → Fresh held (new_rows held pairs)
unfolding new_rows
new_rows-Fresh held [] d = tt
new_rows-Fresh held ((v, w) ∷ pairs) d =
    ground (arith, new_rows-Fresh held pairs d.1, any-new_rows held v.ytno pairs d.0)

Fresh-insert :
    (held : Held) (yt : String) (h : Hold) (rows : List SentRow)
    → any (λ q. q.ytno == yt) rows ≡ false
    → Fresh held rows
    → Fresh (Maps.insert yt h held) rows
Fresh-insert held yt h [] a f = tt
Fresh-insert held yt h (r ∷ rs) a f = ground (
  arith,
  Maps.has_key-insert yt r.ytno h held,
  eq_iff yt r.ytno,
  eq_iff r.ytno yt,
  Fresh-insert held yt h rs,
)

hold_rows-Fresh :
    (rows : List SentRow) (ids : List String) (ms : ℕ) (held : Held)
    → Fresh held rows
    → (hold_rows held rows ids ms).1 ≡ []
unfolding hold_rows push_superseded
hold_rows-Fresh [] ids ms held f = refl
hold_rows-Fresh (r ∷ rs) [] ms held f = refl
hold_rows-Fresh (r ∷ rs) (id ∷ ids) ms held f =
    let h = hold_of_row r id ms in
    ground (
      arith,
      Maps.has_key-lookup r.ytno held,
      hold_rows-Fresh rs ids ms (Maps.insert r.ytno h held),
      Fresh-insert held r.ytno h rs,
    )

-- The orders of a tick supersede nothing, when the tick's pairs name each truck once: an order goes
-- out only to a truck that holds none.
pub new_rows-supersede_nothing {ℓ} :
    (E : Type ℓ) (held : Held) (pairs : List (Candidate × WorkItem)) (ids : List String) (ms : ℕ)
    → TrucksDiffer pairs
    → (apply_written {E = E} held (new_rows held pairs) (ok (ids, ms))).1 ≡ ok []
unfolding apply_written
new_rows-supersede_nothing E held pairs ids ms d =
    ap ok (hold_rows-Fresh (new_rows held pairs) ids ms held (new_rows-Fresh held pairs d))
