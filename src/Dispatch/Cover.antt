-- ===== src/Dispatch/Cover.antt =====
-- crates/api/src/livemap.rs: `deadline_cover` and its `try_slot`, the augmenting paths by which slots
-- get trucks in the order of their deadlines. The recursion is on fuel; running out of it is `none`.
pub mod Search
pub mod Served
use tt_aiops_platform.Prelude.Int.{ℤ}
use tt_aiops_platform.Prelude.{
  ℕ, suc, zero, ◌+◌, max, Bool, true, false, not, ◌&&◌, ◌||◌, Option, none, some, List, [], ◌∷◌,
  ◌++◌, if◌then◌else◌, ltb, eqb, length, get_or, set, replicate, any,
}

-- A truck, a work and the cost of the drive.
abbrev pub Edge : Type 0
Edge = ℕ × ℕ × ℤ

-- `adj`: for each work the trucks that can serve it, each once.
unfoldable pub add_edge : ℕ → ℕ → Edge → List (List ℕ) → List (List ℕ)
add_edge n_trucks n_w (t, w, c) adj =
    let ts = get_or adj w [] in
    if ltb t n_trucks && (ltb w n_w && not (any (eqb t) ts)) then set adj w (ts ++ t ∷ []) else adj

unfoldable pub add_edges : ℕ → ℕ → List Edge → List (List ℕ) → List (List ℕ)
add_edges n_trucks n_w [] adj = adj
add_edges n_trucks n_w (e ∷ es) adj = add_edges n_trucks n_w es (add_edge n_trucks n_w e adj)

-- `max().map_or(0, |m| m + 1)`
unfoldable pub work_count : List ℕ → ℕ
work_count [] = 0
work_count (w ∷ ws) = max (suc w) (work_count ws)

-- `truck_slot` and `seen`.
pub record Tries : Type 0 where
  pub truck_slot : List (Option ℕ)
  pub seen : List Bool

-- The loop over the trucks `ts` of one slot `s`; `go` tries another slot.
unfoldable pub scan :
    (ℕ → Tries → Option (Bool × Tries)) → ℕ → List ℕ → Tries → Option (Bool × Tries)
scan go s [] st = some (false, st)
scan go s (t ∷ ts) st = elim (get_or st.seen t true) [
  | true ↦ scan go s ts st
  | false ↦
      let st' : Tries = record { truck_slot = st.truck_slot; seen = set st.seen t true } in
      let tried : Option (Bool × Tries) = elim (get_or st.truck_slot t none) [
        | none ↦ some (true, st')
        | some other ↦ go other st'
      ] in
      elim tried [
        | none ↦ none
        | some found ↦ elim found.0 [
          | true ↦ some (true, record found.1 { truck_slot = set found.1.truck_slot t (some s) })
          | false ↦ scan go s ts found.1
        ]
      ]
]

module _ (adj : List (List ℕ)) (slot_wpos : List ℕ) where
  unfoldable pub try_slot : ℕ → ℕ → Tries → Option (Bool × Tries)
  unfolding scan
  try_slot zero s st = none
  try_slot (suc fuel) s st = scan (try_slot fuel) s (get_or adj (get_or slot_wpos s 0) []) st

  -- The loop over the slots `s, s + 1, ...`, `k` of them.
  unfoldable pub cover_slots : ℕ → ℕ → ℕ → List (Option ℕ) → Option (List Bool × List (Option ℕ))
  cover_slots n_trucks s zero truck_slot = some ([], truck_slot)
  cover_slots n_trucks s (suc k) truck_slot =
      elim (try_slot (suc n_trucks) s
        (record { truck_slot = truck_slot; seen = replicate n_trucks false })) [
          | none ↦ none
          | some (found, st) ↦ elim (cover_slots n_trucks (suc s) k st.truck_slot) [
            | none ↦ none
            | some (covered, final) ↦ some (found ∷ covered, final)
          ]
        ]

-- The covered slots, with the final `truck_slot`, which the source drops.
unfoldable pub deadline_cover : ℕ → List ℕ → List Edge → Option (List Bool × List (Option ℕ))
deadline_cover n_trucks slot_wpos edges =
    let n_w = work_count slot_wpos in
    let adj = add_edges n_trucks n_w edges (replicate n_w []) in
    cover_slots adj slot_wpos n_trucks 0 (length slot_wpos) (replicate n_trucks none)
