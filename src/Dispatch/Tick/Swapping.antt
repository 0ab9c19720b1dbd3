-- ===== src/Dispatch/Tick/Swapping.antt =====
-- crates/api/src/livemap.rs, `spawn_stage2_shadow`: the swap stage, with the protection of deadlines and
-- the rows of the orders that it sends.
pub mod Timely
pub mod Rows
mod Examples
use tt_aiops_platform.Prelude.{
  ℕ, suc, ◌+◌, ◌*◌, String, Bool, true, false, not, ◌&&◌, Option, none, some, List, [], ◌∷◌, ◌++◌,
  if◌then◌else◌, map, select, length, leb, get_elem?, is_some, and_then, unwrap_or, Result, ok, err,
  ◌==◌, string_eq,
}
use tt_aiops_platform.Prelude.Maps
use tt_aiops_platform.Prelude.Int.{ℤ, pos, ◌+ℤ◌, mul_ℤ}
use tt_aiops_platform.Dispatch.Signals.{HoldKind}
use tt_aiops_platform.Dispatch.Swaps.{Swap, swap_makes_late, pick_swaps}
use tt_aiops_platform.Dispatch.Holds.{Held, Closed, SentRow, apply_written}
use tt_aiops_platform.Dispatch.Tick.{Work}
use tt_aiops_platform.Dispatch.Tick.Edges.{Drive}

abbrev pub swap_min_gain_s : ℕ
swap_min_gain_s = 180

-- `SwapCand`: a truck under way, where it is and where it picks up.
pub record SwapCand (P : Type 0) : Type 0 where
  pub ytno : String
  pub jobtype : String
  pub qc : String
  pub contno : Option String
  pub place : P
  pub pickup : P

unfoldable pub need_boxes : ℤ → List String → List (String × ℤ) → List (String × ℤ)
need_boxes e [] m = m
need_boxes e (c ∷ contnos) m = need_boxes e contnos (Maps.insert c e m)

-- `need_by_cont`: the time at which the crane needs each box.
unfoldable pub need_by_cont : List Work → List (String × ℤ) → List (String × ℤ)
need_by_cont [] m = m
need_by_cont (w ∷ work) m = elim w.work_eta_ts [
  | none ↦ need_by_cont work m
  | some e ↦ need_by_cont work (need_boxes e w.contnos m)
]

unfoldable pub arr_ms : ℤ → List (String × ℤ) → ℤ → String → ℤ
arr_ms now_ms lead_extra p90 jt =
    now_ms +ℤ mul_ℤ 1000 (p90 +ℤ unwrap_or (Maps.lookup jt lead_extra) (pos 0))

module _ {P : Type 0} (cost : P → P → Bool → Drive) where
  -- The drive of the truck of `a` to the work of `b`.
  unfoldable pub drive : SwapCand P → SwapCand P → Drive
  drive a b = cost a.place b.pickup (b.jobtype == "LD")

  unfoldable pub own : List (SwapCand P) → List ℤ
  own swap_cands = map (λ c. (drive c c).p50) swap_cands

  module _ (now_ms : ℤ) (lead_extra : List (String × ℤ)) where
    unfoldable pub arrival : SwapCand P → SwapCand P → ℤ
    arrival a b = arr_ms now_ms lead_extra (drive a b).p90 b.jobtype

    module _ (need : List (String × ℤ)) where
      -- `cross` on the candidates, and on their indices.
      unfoldable pub cross_of : SwapCand P → SwapCand P → Option ℤ
      cross_of a b = elim (and_then b.contno (λ c. Maps.lookup c need)) [
        | none ↦ none
        | some n ↦
            if swap_makes_late (arrival a b) (arrival b b) n then none else some (drive a b).p50
      ]

      unfoldable pub cross : List (SwapCand P) → ℕ → ℕ → Option ℤ
      cross swap_cands i j =
          and_then (get_elem? swap_cands i) (λ a. and_then (get_elem? swap_cands j) (cross_of a))

      -- `picks`, none with fewer than two candidates.
      unfoldable pub swap_picks : List (SwapCand P) → List Swap
      swap_picks swap_cands =
          let picks = pick_swaps (own swap_cands) (cross swap_cands) (pos swap_min_gain_s) in
          if leb 2 (length swap_cands) then picks else []

module _ {P : Type 0} where
  -- The order that sends the truck of `a` to the box of `b`.
  unfoldable pub swap_row : SwapCand P → SwapCand P → ℕ → SentRow
  swap_row a b peer = record {
    kind = HoldKind.swap;
    ytno = a.ytno;
    contno = unwrap_or b.contno "";
    jobtype = some b.jobtype;
    qc = some b.qc;
    peer = some peer;
  }

module _ {P : Type 0} (swap_cands : List (SwapCand P)) where
  abbrev pub box_of : ℕ → Option String
  box_of i = and_then (get_elem? swap_cands i) (λ c. c.contno)

  unfoldable pub has_boxes : Swap → Bool
  has_boxes s = is_some (box_of s.i) && is_some (box_of s.j)

  unfoldable pub pair_rows : ℕ → Swap → List SentRow
  pair_rows k s = elim (get_elem? swap_cands s.i) [
    | none ↦ []
    | some a ↦ elim (get_elem? swap_cands s.j) [
      | none ↦ []
      | some b ↦ swap_row a b (2 * k + 1) ∷ swap_row b a (2 * k) ∷ []
    ]
  ]

  -- `rows`, for the picks from the index `k`.
  unfoldable pub swap_rows : ℕ → List Swap → List SentRow
  swap_rows k [] = []
  swap_rows k (s ∷ picks) = pair_rows k s ++ swap_rows (suc k) picks

-- The match on the result of `apply_written`.
unfoldable pub made {ℓ} :
    {E : Type ℓ} → List Swap → Held × Result E (List Closed) → Held × List Swap
made picks (after, ok superseded) = (after, picks)
made picks (after, err e) = (after, [])

-- `write` is what the database answers to the rows. What is held then, and the swaps that are made.
module _ {ℓ} {E : Type ℓ} (write : List SentRow → Result E (List String × ℕ)) where
  unfoldable pub write_rows : Held → List Swap → List SentRow → Held × List Swap
  write_rows held picks [] = (held, picks)
  write_rows held picks (r ∷ rs) = made picks (apply_written held (r ∷ rs) (write (r ∷ rs)))

  unfoldable pub send_swaps :
      {P : Type 0} → List (SwapCand P) → Bool → Held → List Swap → Held × List Swap
  send_swaps swap_cands hold_sent held [] = (held, [])
  send_swaps swap_cands hold_sent held (s ∷ ss) =
      let picks = select (has_boxes swap_cands) (s ∷ ss) in
      if hold_sent then write_rows held picks (swap_rows swap_cands 0 picks) else (held, s ∷ ss)
