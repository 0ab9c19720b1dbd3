-- ===== src/Dispatch/Assign/Grown.antt =====
-- The first inner loop ends at a column without a row, with the invariants of the search.
use tt_aiops_platform.Prelude.{
  ℕ, zero, suc, ◌+◌, ◌≡◌, ◌≢◌, ◌≤◌, ◌<◌, refl, ap, ◌∙◌, some, List, inl, inr, Bool-cases, eqb,
  get_or, arith,
}
use tt_aiops_platform.Prelude.Int.{ℤ}
use tt_aiops_platform.Dispatch.Cover.Search.{unseen, unseen-set}
use tt_aiops_platform.Dispatch.Assign.{Search, round, grow}
use tt_aiops_platform.Dispatch.Assign.Dual.{IsCosts, IsPlacing, IsSearch}
use tt_aiops_platform.Dispatch.Assign.Marked.{marked, found, marked-IsMarked, marked-fewer}
use tt_aiops_platform.Dispatch.Assign.Moved.{shifted-IsSearch, shifted-used}

-- The loop ends in this state.
pub record IsGrown (a : List (List ℤ)) (n m i : ℕ) (p : List ℕ) (b : ℕ) (s : Search) (j1 : ℕ)
    : Type 0 where
  pub search : IsSearch a n m i p b s j1
  pub forward : 1 ≤ j1
  pub no_row : get_or p j1 0 ≡ 0

module _ (a : List (List ℤ)) (n m i : ℕ) (p : List ℕ) (c b f : ℕ) (costs : IsCosts a n m c)
    (placing : IsPlacing n m i f p) (small : b + c < 2305843009213693951) where
  record IsRound (s : Search) (r : Search × ℕ) : Type 0 where
    next : IsSearch a n m i p b r.0 r.1
    forward : 1 ≤ r.1
    fewer : suc (unseen r.0.used) ≡ unseen s.used

  round-IsRound :
      (s : Search) (j0 : ℕ)
      → IsSearch a n m i p b s j0
      → get_or p j0 0 ≢ 0
      → IsRound s (round a m p j0 s)
  unfolding round
  round-IsRound s j0 h row =
      let mark = marked a n m i p c b f costs placing small s j0 h row in
      let least = found a n m i p c b f costs placing small s j0 h row in
      let is_marked = marked-IsMarked a n m i p c b f costs placing small s j0 h row in
      record {
        next = shifted-IsSearch a n m i p b f placing mark least.delta least.j1 is_marked;
        forward = is_marked.low_j1;
        fewer =
            ap (λ l. suc (unseen l))
              (shifted-used a n m i p b f placing mark least.delta least.j1 is_marked)
            ∙ marked-fewer a n m i p c b f costs placing small s j0 h row;
      }

  pub grow-IsGrown :
      (fuel : ℕ) (s : Search) (j0 : ℕ)
      → unseen s.used ≤ fuel
      → IsSearch a n m i p b s j0
      → get_or p j0 0 ≢ 0
      → (s' : Search) × (j1 : ℕ) × (grow a m fuel p j0 s ≡ some (s', j1))
        × IsGrown a n m i p b s' j1
  unfolding grow
  grow-IsGrown zero s j0 le h row = absurd (omega (arith, unseen-set j0 s.used h.not_used))
  grow-IsGrown (suc fuel) s j0 le h row =
      let r = round a m p j0 s in
      let done = round-IsRound s j0 h row in
      elim (Bool-cases (eqb (get_or p r.1 0) 0)) [
        | inl e ↦ (
          r.0,
          r.1,
          rw (e, grow) refl,
          record { search = done.next; forward = done.forward; no_row = ground arith },
        )
        | inr e ↦
            let (s', j1, q, g) =
              grow-IsGrown fuel r.0 r.1 (omega (arith, done.fewer)) done.next (λ z. ground arith) in
            (s', j1, rw (e, grow) q, g)
      ]
