-- ===== src/Dispatch/Holds/Restore.antt =====
-- What `restore_holds` brings back at start-up.
use mathlib.Core.List.Perm
use mathlib.Core.List.{Perm, perm_middle, append-nil}
use tt_aiops_platform.Prelude.{
  ℕ, ◌≤◌, ◌≡◌, subst, inl, inr, String, true, false, none, some, List, [], ◌∷◌, ◌++◌, map, arith,
  Bool-cases, string_eq, eq_iff, str_lt_asymm, str_le_trans, ok,
}
use tt_aiops_platform.Prelude.Maps
use tt_aiops_platform.Prelude.Sorting.{sort_by, sort_by-perm}
use tt_aiops_platform.Dispatch.Holds.{
  Hold, Held, Closed, OpenSent, open_le, closed_le, hold_of_open, is_expired, restore_rows,
  restore_holds, push_superseded,
}
use tt_aiops_platform.Dispatch.Holds.Orders.{msg_ids, closed_ids, closed_ids-perm, insert-perm}

abbrev pub open_ids : List OpenSent → List String
open_ids = map (λ r. r.msg_id)

insert-perm_new :
    (yt : String) (h : Hold) (m : Held)
    → Maps.has_key yt m ≡ false
    → Perm (msg_ids (Maps.insert yt h m)) (h.msg_id ∷ msg_ids m)
unfolding push_superseded
insert-perm_new yt h m k =
    let e : Maps.lookup yt m ≡ none = ground (arith, Maps.has_key-lookup yt m) in
    rw (e, push_superseded) at (insert-perm yt h m)

restore_rows-perm :
    (now_ms : ℕ) (rows : List OpenSent) (held : Held)
    → let (after, close) = restore_rows now_ms rows held in
      Perm (msg_ids after ++ closed_ids close) (open_ids rows ++ msg_ids held)
unfolding restore_rows hold_of_open
restore_rows-perm now_ms [] held = rw (append-nil (msg_ids held)) (Perm.refl (msg_ids held))
restore_rows-perm now_ms (r ∷ rs) held = elim (Bool-cases (is_expired now_ms r)) [
  | inl old ↦
      rw old (Perm.trans (perm_middle _ _) (Perm.cons r.msg_id (restore_rows-perm now_ms rs held)))
  | inr new ↦ elim (Bool-cases (Maps.has_key r.ytno held)) [
    | inl taken ↦
        rw (new, taken)
          (Perm.trans (perm_middle _ _) (Perm.cons r.msg_id (restore_rows-perm now_ms rs held)))
    | inr free ↦
        rw (new, free)
          (Perm.trans (restore_rows-perm now_ms rs (Maps.insert r.ytno (hold_of_open r) held)) (
            Perm.trans
              (Perm.append_left (open_ids rs) (insert-perm_new r.ytno (hold_of_open r) held free))
              (perm_middle (open_ids rs) (msg_ids held))))
  ]
]

-- When a restore gives holds and closed orders, every open order is held or closed, and none both.
pub restore_holds-perm {ℓ} :
    (E : Type ℓ) (rows : List OpenSent) (now_ms : ℕ) {held : Held} {close : List Closed}
    → restore_holds {E = E} (ok rows) now_ms ≡ some (held, close)
    → Perm (msg_ids held ++ closed_ids close) (open_ids rows)
unfolding restore_holds
restore_holds-perm E rows now_ms {held} {close} e =
    let sorted = sort_by open_le rows in
    let (after, out) = restore_rows now_ms sorted [] in
    let p : Perm (msg_ids after ++ closed_ids (sort_by closed_le out)) (open_ids sorted ++ []) =
      closed_ids-perm (msg_ids after) (sort_by-perm closed_le out)
        (restore_rows-perm now_ms sorted []) in
    subst (λ h. Perm (msg_ids h ++ closed_ids close) (open_ids rows)) (cc)
      (subst (λ c. Perm (msg_ids after ++ closed_ids c) (open_ids rows)) (cc)
        (Perm.trans (rw (append-nil (open_ids sorted)) at p)
          (Perm.map (λ r. r.msg_id) (sort_by-perm open_le rows))))

pub open_le_total : (a b : OpenSent) → open_le a b ≡ false → open_le b a ≡ true
unfolding open_le
open_le_total a b h = ground (arith, str_lt_asymm b.msg_id a.msg_id)

pub open_le_trans :
    (a b c : OpenSent) → open_le a b ≡ true → open_le b c ≡ true → open_le a c ≡ true
unfolding open_le
open_le_trans a b c h k = ground (arith, str_le_trans a.msg_id b.msg_id c.msg_id)

-- An order that comes first was sent no earlier.
pub open_le-le : (a b : OpenSent) → open_le a b ≡ true → b.sent_ms ≤ a.sent_ms
unfolding open_le
open_le-le a b h = ground arith

-- A hold stays through the loop.
pub lookup-restore_rows :
    (now_ms : ℕ) (rows : List OpenSent) (held : Held) (yt : String) (h : Hold)
    → Maps.lookup yt held ≡ some h
    → Maps.lookup yt (restore_rows now_ms rows held).0 ≡ some h
unfolding restore_rows
lookup-restore_rows now_ms [] held yt h e = e
lookup-restore_rows now_ms (r ∷ rs) held yt h e = ground (
  arith,
  Maps.has_key-lookup yt held,
  Maps.lookup-insert r.ytno yt (hold_of_open r) held,
  eq_iff r.ytno yt,
  lookup-restore_rows now_ms rs held yt h e,
  lookup-restore_rows now_ms rs (Maps.insert r.ytno (hold_of_open r) held) yt h,
)
