-- ===== src/Dispatch/Tick/Swapping/Examples.antt =====
-- Runs of the swap stage: two trucks, each near the box of the other.
use tt_aiops_platform.Prelude.{
  ℕ, ◌≡◌, ◌⊎◌, refl, String, Bool, true, some, List, [], ◌∷◌, All, Result, ok, eqb, if◌then◌else◌,
}
use tt_aiops_platform.Prelude.Maps
use tt_aiops_platform.Prelude.Sorting.{sort_by, insert_by}
use tt_aiops_platform.Prelude.Int.{◌+ℤ◌, ◌-ℤ◌, ℤ, pos}
use tt_aiops_platform.Dispatch.Holds.{SentRow}
use tt_aiops_platform.Dispatch.Swaps.{
  Swap, pick_swaps, candidates, candidate, swap_le, pick, swap_makes_late,
}
use tt_aiops_platform.Dispatch.Swaps.Picked.{AllApart}
use tt_aiops_platform.Dispatch.Tick.Edges.{Drive}
use tt_aiops_platform.Dispatch.Tick.Swapping.{
  own, cross, cross_of, drive, arrival, arr_ms, SwapCand, swap_picks, send_swaps,
}
use tt_aiops_platform.Dispatch.Tick.Swapping.Timely.{IsWorthwhile, swap_picks-IsWorthwhile}
use tt_aiops_platform.Dispatch.Tick.Swapping.Rows.{IsDropped, IsSent, send_swaps-swap_picks}

-- Between equal places a drive takes 10 seconds, else 500.
abbrev by_place : ℕ → ℕ → Bool → Drive
by_place a b ld =
    if eqb a b
    then record { p50 = pos 10; p90 = pos 20; tier = "R" }
    else record { p50 = pos 500; p90 = pos 900; tier = "R" }

abbrev under_way : String → String → ℕ → ℕ → SwapCand ℕ
under_way yt c place pickup = record {
  ytno = yt;
  jobtype = "LD";
  qc = "C1";
  contno = some c;
  place = place;
  pickup = pickup;
}

abbrev crossed : List (SwapCand ℕ)
crossed = under_way "T1" "BOX1" 1 2 ∷ under_way "T2" "BOX2" 2 1 ∷ []

abbrev needs : List (String × ℤ)
needs = ("BOX1", pos 2000000) ∷ ("BOX2", pos 2000000) ∷ []

swap_picks-IsWorthwhile_example :
    All
      (IsWorthwhile by_place (pos 900000) [] needs crossed)
      (swap_picks by_place (pos 900000) [] needs crossed)
    × AllApart (swap_picks by_place (pos 900000) [] needs crossed)
swap_picks-IsWorthwhile_example = swap_picks-IsWorthwhile by_place (pos 900000) [] needs crossed

abbrev one_swap : List Swap
one_swap = record { i = 0; j = 1; ij = pos 10; ji = pos 10; gain = pos 980 } ∷ []

swap_picks-crossed : swap_picks by_place (pos 900000) [] needs crossed ≡ one_swap
unfolding swap_picks pick_swaps candidates candidate swap_le pick own cross cross_of drive arrival
    arr_ms swap_makes_late Maps.lookup sort_by insert_by ◌+ℤ◌ ◌-ℤ◌
swap_picks-crossed = refl

abbrev answer_ids : List SentRow → Result String (List String × ℕ)
answer_ids rows = ok ("m1" ∷ "m2" ∷ [], 900)

abbrev crossed_picks : List Swap
crossed_picks = swap_picks by_place (pos 900000) [] needs crossed

send_swaps-swap_picks_example :
    IsDropped crossed answer_ids [] crossed_picks
      (send_swaps answer_ids crossed true [] crossed_picks)
    ⊎ IsSent crossed answer_ids [] crossed_picks
        (send_swaps answer_ids crossed true [] crossed_picks)
send_swaps-swap_picks_example =
    send_swaps-swap_picks crossed answer_ids [] by_place (pos 900000) [] needs
