-- ===== src/Dispatch/Tick/Pool/Slots.antt =====
-- Which works are due, with how many slots.
use tt_aiops_platform.Prelude.{
  ℕ, ◌+◌, ◌*◌, ◌≡◌, ◌<◌, String, Bool, false, some, List, ◌&&◌, length, select, range, get_elem?,
}
use tt_aiops_platform.Prelude.Int.{ℤ, pos, pos_part, leb_ℤ, ltb_ℤ}
use tt_aiops_platform.Dispatch.Due.{DueWork}
use tt_aiops_platform.Dispatch.Tick.{Work}
use tt_aiops_platform.Dispatch.Tick.Pool.{slot_at, move_s, cutoff, slots_of}

module _ (base limit now : ℤ) (step : ℕ) where
  abbrev in_time : ℕ → Bool
  in_time j = leb_ℤ (slot_at base step j) limit

  abbrev late : ℕ → Bool
  late j = in_time j && ltb_ℤ (slot_at base step j) now

module _ (now : ℤ) (pool_margin : ℕ) (self_recent : List (String × String × String)) where
  -- The slots of a work with the deadline `base` that come before the cutoff.
  abbrev pub open_slots : Work → ℤ → ℕ
  open_slots w base = length (
      select (in_time base (cutoff now pool_margin self_recent) now (move_s w.jobtype * 1000))
        (range 0 (pos_part w.n)))

  -- `d` is the entry of the work `w`, whose index is `oi`.
  abbrev IsEntry : ℕ → Work → DueWork → Type 0
  IsEntry oi w d =
      (d.oi ≡ oi)
      × (w.tos_assigned ≡ false)
      × (w.dispatch_deadline_ts ≡ some d.deadline)
      × (d.slots ≡ pos (slots_of now pool_margin self_recent w d.deadline).0)
      × (0 < (slots_of now pool_margin self_recent w d.deadline).0)

  -- `d` is the entry of one of the works, the first of which has the index `oi`.
  abbrev pub IsDue : ℕ → List Work → DueWork → Type 0
  IsDue oi works d = (i : ℕ) × (w : Work) × (get_elem? works i ≡ some w) × IsEntry (oi + i) w d
