-- ===== src/Dispatch/Plans.antt =====
-- The theorems on the choice of works, slots and swaps at concrete inputs.
use tt_aiops_platform.Prelude.{
  ℕ, String, ◌≡◌, ◌↔◌, refl, Bool, true, false, Option, some, none, List, [], ◌∷◌, leb, length,
  get_or, All, Result, ok, if◌then◌else◌, arith,
}
use tt_aiops_platform.Prelude.Sorting
use tt_aiops_platform.Prelude.Sorting.{sort_by}
use tt_aiops_platform.Prelude.Int.{ℤ, pos, negsuc, ◌≤ℤ◌, ◌+ℤ◌, ◌-ℤ◌}
use tt_aiops_platform.Dispatch.Due.{DueWork, due_le, give, allocate_due}
use tt_aiops_platform.Dispatch.Swaps.{Swap, pick_swaps}
use tt_aiops_platform.Dispatch.Swaps.Candidates.{IsGood}
use tt_aiops_platform.Dispatch.Swaps.Picked.{
  AllApart, IsBeaten, pick_swaps-IsGood, pick_swaps-IsBeaten,
}
use tt_aiops_platform.Dispatch.Stale.{
  workpool_stale_reason, workpool_stale_reason_iff, workpool_max_age_s,
}
use tt_aiops_platform.Dispatch.Cover.{
  Edge, deadline_cover, cover_slots, try_slot, scan, add_edges, add_edge, work_count,
}
use tt_aiops_platform.Dispatch.Cover.Search.{Fits, holders, one_if}
use tt_aiops_platform.Dispatch.Cover.Served.{HasEdge, deadline_cover-serves}

-- The later work comes first, and asks for more than is left.
abbrev works : List DueWork
works =
    record { oi = 7; slots = pos 3; deadline = pos 900 }
    ∷ record { oi = 4; slots = pos 2; deadline = negsuc 59 }
    ∷ []

allocate_due_example : allocate_due works (pos 3) ≡ (4, pos 2) ∷ (7, pos 1) ∷ []
unfolding allocate_due due_le sort_by Sorting.insert_by give ◌+ℤ◌ ◌-ℤ◌
allocate_due_example = refl

-- Two trucks near each other's work.
abbrev own : List ℤ
own = pos 600 ∷ pos 500 ∷ []

abbrev cross : ℕ → ℕ → Option ℤ
cross i j = if leb i 1 then some (pos 100) else none

abbrev swap_0_1 : Swap
swap_0_1 = record { i = 0; j = 1; ij = pos 100; ji = pos 100; gain = pos 900 }

swap_0_1-IsGood : IsGood own cross (pos 180) swap_0_1
unfolding ◌+ℤ◌ ◌-ℤ◌
swap_0_1-IsGood = (omega arith, omega arith, refl, refl, refl, omega arith)

pick_swaps-IsGood_example :
    All (IsGood own cross (pos 180)) (pick_swaps own cross (pos 180))
    × AllApart (pick_swaps own cross (pos 180))
pick_swaps-IsGood_example = pick_swaps-IsGood own cross (pos 180)

pick_swaps-IsBeaten_example : IsBeaten swap_0_1 (pick_swaps own cross (pos 180))
pick_swaps-IsBeaten_example = pick_swaps-IsBeaten own cross (pos 180) swap_0_1 swap_0_1-IsGood

abbrev fresh_answer : Result String (Option ℤ × Option ℤ)
fresh_answer = ok (some (pos 300), none)

workpool_stale_reason_iff_example : (workpool_stale_reason fresh_answer ≡ none) ↔ (
    (age : ℤ) × (table_age : Option ℤ) × (fresh_answer ≡ ok (some age, table_age))
    × (age ≤ℤ workpool_max_age_s))
workpool_stale_reason_iff_example = workpool_stale_reason_iff fresh_answer

abbrev at_least : ℕ → ℕ → Bool
at_least f p = leb p f

abbrev fracs : List ℕ
fracs = 5 ∷ 10 ∷ 30 ∷ 52 ∷ 60 ∷ 70 ∷ 80 ∷ 90 ∷ 95 ∷ []

-- The second slot gets the only truck that the first could have had, which moves to another one.
abbrev edges : List Edge
edges = (0, 0, pos 10) ∷ (1, 0, pos 20) ∷ (0, 1, pos 30) ∷ []

deadline_cover-serves_example :
    (covered : List Bool) × (truck_slot : List (Option ℕ)) × (deadline_cover 2
        (0 ∷ 1 ∷ 0 ∷ [])
        edges
      ≡ some (covered, truck_slot))
    × (length covered ≡ 3)
    × (length truck_slot ≡ 2)
    × Fits (λ t s. HasEdge edges t (get_or (0 ∷ 1 ∷ 0 ∷ []) s 0)) 0 truck_slot
    × ((s : ℕ) → holders s truck_slot ≡ one_if (get_or covered s false))
deadline_cover-serves_example = deadline_cover-serves 2 (0 ∷ 1 ∷ 0 ∷ []) edges

deadline_cover_example :
    deadline_cover 2 (0 ∷ 1 ∷ 0 ∷ []) edges ≡ some (true ∷ true ∷ false ∷ [], some 1 ∷ some 0 ∷ [])
unfolding deadline_cover cover_slots try_slot scan add_edges add_edge work_count
deadline_cover_example = refl

abbrev below_3 : ℕ → Bool
below_3 n = leb n 2
