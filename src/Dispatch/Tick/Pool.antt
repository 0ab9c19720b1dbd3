-- ===== src/Dispatch/Tick/Pool.antt =====
-- crates/api/src/livemap.rs, `spawn_stage2_shadow`: the slots of the works that are due, and the works
-- that get trucks.
pub mod Slots
use tt_aiops_platform.Prelude.{
  ℕ, zero, suc, ◌+◌, ◌*◌, String, Bool, true, false, Option, none, some, List, [], ◌∷◌, any,
  if◌then◌else◌, ltb, ◌==◌, string_eq, triple_eq, is_some_and,
}
use tt_aiops_platform.Prelude.Int.{ℤ, pos, ◌+ℤ◌, ◌-ℤ◌, leb_ℤ, ltb_ℤ, max_ℤ, pos_part}
use tt_aiops_platform.Dispatch.Due.{DueWork, allocate_due}
use tt_aiops_platform.Dispatch.Tick.{Work}

-- `LD_MOVE_S` and `DS_MOVE_S`.
unfoldable pub move_s : String → ℕ
move_s jobtype = if jobtype == "LD" then 132 else 90

abbrev pub slot_at : ℤ → ℕ → ℕ → ℤ
slot_at base step j = base +ℤ pos (j * step)

-- The loop over the slots `j, j + 1, ...`, `k` of them: how many are due, and how many overdue.
unfoldable pub count_slots : ℤ → ℤ → ℤ → ℕ → ℕ → ℕ → ℕ × ℕ
count_slots base cutoff now step j zero = (0, 0)
count_slots base cutoff now step j (suc k) =
    let (slots, overdue) = count_slots base cutoff now step (suc j) k in
    let slot = slot_at base step j in
    if leb_ℤ slot cutoff
    then (suc slots, if ltb_ℤ slot now then suc overdue else overdue)
    else (0, 0)

-- `due`, `overdue` and `self_cover_n`.
pub record DuePool : Type 0 where
  pub due : List DueWork
  pub overdue : ℕ
  pub self_cover_n : ℕ

module _ (now : ℤ) (pool_margin : ℕ) (self_recent : List (String × String × String)) where
  unfoldable pub cutoff : ℤ
  cutoff = now +ℤ pos (pool_margin * 1000)

  unfoldable pub slots_of : Work → ℤ → ℕ × ℕ
  slots_of w base = count_slots base cutoff now (move_s w.jobtype * 1000) 0 (pos_part w.n)

  unfoldable pub is_recent : Work → Bool
  is_recent w = is_some_and w.contno (λ c. any (λ k. k == (w.vessel, w.queuename, c)) self_recent)

  -- The end of the loop's body, for a work with the deadline `base`.
  unfoldable pub push_due : ℕ → Work → ℤ → DuePool → DuePool
  push_due oi w base rest =
      let (slots, overdue) = slots_of w base in
      record rest {
        due =
            if ltb 0 slots
            then record { oi = oi; slots = pos slots; deadline = base } ∷ rest.due
            else rest.due;
        overdue = overdue + rest.overdue;
      }

  unfoldable pub due_step : ℕ → Work → DuePool → DuePool
  due_step oi w rest =
      let counted : DuePool = record rest {
        self_cover_n = if is_recent w then suc rest.self_cover_n else rest.self_cover_n;
      } in
      if w.tos_assigned
      then rest
      else elim w.dispatch_deadline_ts [ none ↦ counted | some base ↦ push_due oi w base counted ]

  -- The loop over the works, the first with the index `oi`.
  unfoldable pub due_works : ℕ → List Work → DuePool
  due_works oi [] = record { due = []; overdue = 0; self_cover_n = 0 }
  due_works oi (w ∷ works) = due_step oi w (due_works (suc oi) works)

unfoldable pub given_total : List (ℕ × ℤ) → ℤ
given_total [] = pos 0
given_total ((oi, a) ∷ kept) = a +ℤ given_total kept

-- `kept_new`, and `trucks_held_n`, the trucks that get no work.
unfoldable pub choose_works : DuePool → ℕ → ℕ → List (ℕ × ℤ) × ℤ
choose_works p n_free n_soon =
    let truck_n = pos (n_free + n_soon) in
    let kept_new = allocate_due p.due truck_n in
    (kept_new, max_ℤ (truck_n -ℤ given_total kept_new) (pos 0))
