-- ===== src/Dispatch/Swaps.antt =====
-- crates/api/src/livemap.rs: `swap_is_frozen`, `swap_makes_late` and `pick_swaps`, the exchange of
-- destinations between trucks that are dispatched and not yet loaded.
pub mod Candidates
pub mod Picked
use tt_aiops_platform.Prelude.{
  ℕ, suc, zero, ◌-◌, Bool, true, false, ◌&&◌, ◌||◌, Option, none, some, List, [], ◌∷◌, ◌++◌,
  if◌then◌else◌, ltb, leb, eqb, is_some_and, is_none_or, length, get_or, set, replicate, range,
}
use tt_aiops_platform.Prelude.Sorting.{sort_by}
use tt_aiops_platform.Prelude.Int.{ℤ, pos, ◌+ℤ◌, ◌-ℤ◌, ltb_ℤ, leb_ℤ}
use tt_aiops_platform.Dispatch.Signals.{Instant}

unfoldable pub swap_is_frozen : Option Instant → Option Instant → Bool
swap_is_frozen last_swap last_free =
    is_some_and last_swap (λ s. is_none_or last_free (λ f. ltb f s))

unfoldable pub swap_makes_late : ℤ → ℤ → ℤ → Bool
swap_makes_late new_arr_ms old_arr_ms need_ms =
    ltb_ℤ need_ms new_arr_ms && ltb_ℤ old_arr_ms new_arr_ms

-- Truck `i` takes the work of truck `j` at a drive of `ij` seconds, and `j` that of `i`.
pub record Swap : Type 0 where
  pub i : ℕ
  pub j : ℕ
  pub ij : ℤ
  pub ji : ℤ
  pub gain : ℤ

-- A `for` loop whose body adds to a list.
abbrev pub collect {ℓ κ} : {A : Type ℓ} {B : Type κ} → (A → List B) → List A → List B
collect f [] = []
collect f (x ∷ xs) = f x ++ collect f xs

module _ (own : List ℤ) (cross : ℕ → ℕ → Option ℤ) (min_gain : ℤ) where
  -- The body of the two loops.
  unfoldable pub candidate : ℕ → ℕ → List Swap
  candidate i j = elim (cross i j) [
    | none ↦ []
    | some ij ↦ elim (cross j i) [
      | none ↦ []
      | some ji ↦
          let gain = get_or own i (pos 0) +ℤ get_or own j (pos 0) -ℤ ij -ℤ ji in
          if leb_ℤ min_gain gain
          then record { i = i; j = j; ij = ij; ji = ji; gain = gain } ∷ []
          else []
    ]
  ]

  unfoldable pub candidates : List Swap
  unfolding candidate
  candidates =
      let n = length own in
      collect (λ i. collect (candidate i) (range (suc i) (n - suc i))) (range 0 n)

-- `b.4.cmp(&a.4).then(a.0.cmp(&b.0)).then(a.1.cmp(&b.1))`: the greatest gain first.
unfoldable pub swap_le : Swap → Swap → Bool
swap_le a b =
    if ltb_ℤ b.gain a.gain
    then true
    else if ltb_ℤ a.gain b.gain
    then false
    else if ltb a.i b.i
    then true
    else if eqb a.i b.i
    then leb a.j b.j
    else false

-- The loop over the candidates: a truck is picked once.
unfoldable pub pick : List Bool → List Swap → List Swap
pick used [] = []
pick used (c ∷ cs) =
    let taken = get_or used c.i false || get_or used c.j false in
    let rest = pick (if taken then used else set (set used c.i true) c.j true) cs in
    if taken then rest else c ∷ rest

unfoldable pub pick_swaps : List ℤ → (ℕ → ℕ → Option ℤ) → ℤ → List Swap
unfolding candidates swap_le pick
pick_swaps own cross min_gain =
    pick (replicate (length own) false) (sort_by swap_le (candidates own cross min_gain))
