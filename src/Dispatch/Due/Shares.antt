-- ===== src/Dispatch/Due/Shares.antt =====
-- What `allocate_due` gives each work, in closed form, and how much in total.
use tt_aiops_platform.Prelude.{ℕ, ◌+◌, ◌-◌, List, [], ◌∷◌, min, if◌then◌else◌, eqb}
use tt_aiops_platform.Prelude.Sorting
use tt_aiops_platform.Prelude.Sorting.{sort_by-perm}
use tt_aiops_platform.Prelude.Int.{ℤ, pos, ◌-ℤ◌, min_ℤ, pos_part}
use tt_aiops_platform.Dispatch.Due.{DueWork}

-- The slots that all works ask for together.
abbrev pub demand : List DueWork → ℕ
demand [] = 0
demand (w ∷ due) = pos_part w.slots + demand due

abbrev pub given : List (ℕ × ℤ) → ℕ
given [] = 0
given ((oi, n) ∷ kept) = pos_part n + given kept

-- `trucks` trucks are handed out in the order of the list: a work gets what is left of them after
-- the `asked` slots before it, up to its own slots; a work that gets none is left out.
abbrev pub shares : ℕ → ℕ → List DueWork → List (ℕ × ℤ)
shares trucks asked [] = []
shares trucks asked (w ∷ due) =
    let rest = shares trucks (asked + pos_part w.slots) due in
    let share = min trucks (asked + pos_part w.slots) - min trucks asked in
    if eqb share 0 then rest else (w.oi, pos share) ∷ rest

-- What the source computes for one work, while trucks are left.
module _ (trucks asked : ℕ) where
  abbrev alloc : ℤ → ℤ
  alloc slots = min_ℤ slots (pos trucks -ℤ pos (min trucks asked))

  abbrev share : ℤ → ℕ
  share slots = min trucks (asked + pos_part slots) - min trucks asked
