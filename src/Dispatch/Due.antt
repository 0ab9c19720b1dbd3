-- ===== src/Dispatch/Due.antt =====
-- crates/api/src/livemap.rs: `allocate_due`, the choice of the works that get trucks, by deadline.
pub mod Shares
use tt_aiops_platform.Prelude.{ℕ, Bool, List, [], ◌∷◌, if◌then◌else◌}
use tt_aiops_platform.Prelude.Sorting.{sort_by}
use tt_aiops_platform.Prelude.Int.{ℤ, pos, ◌+ℤ◌, ◌-ℤ◌, leb_ℤ, min_ℤ}

-- A work by its index, with its open slots and its deadline.
pub record DueWork : Type 0 where
  pub oi : ℕ
  pub slots : ℤ
  pub deadline : ℤ

unfoldable pub due_le : DueWork → DueWork → Bool
due_le a b = leb_ℤ a.deadline b.deadline

-- The loop; `acc` trucks are given already.
unfoldable pub give : ℤ → ℤ → List DueWork → List (ℕ × ℤ)
give truck_n acc [] = []
give truck_n acc (w ∷ due) =
    let alloc = min_ℤ w.slots (truck_n -ℤ acc) in
    let rest = give truck_n (if leb_ℤ alloc (pos 0) then acc else acc +ℤ alloc) due in
    if leb_ℤ truck_n acc then [] else if leb_ℤ alloc (pos 0) then rest else (w.oi, alloc) ∷ rest

unfoldable pub allocate_due : List DueWork → ℤ → List (ℕ × ℤ)
allocate_due due truck_n = give truck_n (pos 0) (sort_by due_le due)
