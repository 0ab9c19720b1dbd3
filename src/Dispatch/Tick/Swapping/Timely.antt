-- ===== src/Dispatch/Tick/Swapping/Timely.antt =====
-- That a swap makes no box late.
use tt_aiops_platform.Prelude.{
  ℕ, ◌≡◌, string_eq, subst, ap, zero, suc, ◌⊎◌, String, Bool, none, some, List, [], ◌∷◌, All,
  All-imp, get_elem?, get_or, Option-cases, Bool-cases, inl, inr, length, leb, arith,
}
use tt_aiops_platform.Prelude.Maps
use tt_aiops_platform.Prelude.Int.{ℤ, pos, ◌+ℤ◌, ◌-ℤ◌, ◌≤ℤ◌}
use tt_aiops_platform.Dispatch.Swaps.{Swap, swap_makes_late}
use tt_aiops_platform.Dispatch.Swaps.Candidates.{IsGood}
use tt_aiops_platform.Dispatch.Swaps.Picked.{AllApart, pick_swaps-IsGood}
use tt_aiops_platform.Dispatch.Tick.Edges.{Drive}
use tt_aiops_platform.Dispatch.Tick.Swapping.{
  SwapCand, drive, arrival, cross_of, cross, own, swap_picks,
}

module _ {P : Type 0} (cost : P → P → Bool → Drive) (now_ms : ℤ) (lead_extra : List (String × ℤ))
    (need : List (String × ℤ)) where
  -- The truck of `a` brings the box of `b`, whose time is known, in time or no later than the truck of
  -- `b` would.
  abbrev pub IsTimely : SwapCand P → SwapCand P → Type 0
  IsTimely a b =
      (c : String) × (n : ℤ) × (b.contno ≡ some c)
      × (Maps.lookup c need ≡ some n)
      × ((arrival cost now_ms lead_extra a b ≤ℤ n)
          ⊎ (arrival cost now_ms lead_extra a b ≤ℤ arrival cost now_ms lead_extra b b))

  cross_of-IsTimely :
      (a b : SwapCand P) (d : ℤ)
      → cross_of cost now_ms lead_extra need a b ≡ some d
      → IsTimely a b × (d ≡ (drive cost a b).p50)
  unfolding cross_of swap_makes_late
  cross_of-IsTimely a b d h = elim (Option-cases b.contno) [
    | inl e ↦ (let no : none ≡ some d = rw (e, cross_of) at h in absurd (cc))
    | inr (c, e) ↦ elim (Option-cases (Maps.lookup c need)) [
      | inl k ↦ (let no : none ≡ some d = rw (e, k, cross_of) at h in absurd (cc))
      | inr (n, k) ↦
          let kept = rw (e, k, cross_of) at h in ((c, n, e, k, ground arith), ground arith)
    ]
  ]

  -- The swap `s` is one of two candidates, each truck timely for the other's box, and it shortens the
  -- drives of the two together by at least 180 seconds.
  abbrev pub IsWorthwhile : List (SwapCand P) → Swap → Type 0
  IsWorthwhile swap_cands s =
      (a : SwapCand P) × (b : SwapCand P) × (get_elem? swap_cands s.i ≡ some a)
      × (get_elem? swap_cands s.j ≡ some b)
      × IsTimely a b
      × IsTimely b a
      × (s.gain
          ≡ (drive cost a a).p50
            +ℤ (drive cost b b).p50
            -ℤ (drive cost a b).p50
            -ℤ (drive cost b a).p50)
      × (pos 180 ≤ℤ s.gain)

  get_or-own :
      (swap_cands : List (SwapCand P)) (i : ℕ) (a : SwapCand P)
      → get_elem? swap_cands i ≡ some a
      → get_or (own cost swap_cands) i (pos 0) ≡ (drive cost a a).p50
  unfolding own
  get_or-own [] i a h = absurd (cc)
  get_or-own (c ∷ cs) zero a h = let e : c ≡ a = ground arith in ap (λ x. (drive cost x x).p50) e
  get_or-own (c ∷ cs) (suc i) a h = get_or-own cs i a h

  cross-IsTimely :
      (swap_cands : List (SwapCand P)) (i j : ℕ) (d : ℤ)
      → cross cost now_ms lead_extra need swap_cands i j ≡ some d
      → (a : SwapCand P) × (b : SwapCand P) × (get_elem? swap_cands i ≡ some a)
        × (get_elem? swap_cands j ≡ some b)
        × IsTimely a b
        × (d ≡ (drive cost a b).p50)
  unfolding cross
  cross-IsTimely swap_cands i j d h = elim (Option-cases (get_elem? swap_cands i)) [
    | inl e ↦ (let no : none ≡ some d = rw (e, cross) at h in absurd (cc))
    | inr (a, e) ↦ elim (Option-cases (get_elem? swap_cands j)) [
      | inl k ↦ (let no : none ≡ some d = rw (e, k, cross) at h in absurd (cc))
      | inr (b, k) ↦
          let r = cross_of-IsTimely a b d (rw (e, k, cross) at h) in (a, b, e, k, r.0, r.1)
    ]
  ]

  IsGood-IsWorthwhile :
      (swap_cands : List (SwapCand P)) (s : Swap)
      → IsGood (own cost swap_cands) (cross cost now_ms lead_extra need swap_cands) (pos 180) s
      → IsWorthwhile swap_cands s
  IsGood-IsWorthwhile swap_cands s g =
      let (a, b, e, k, there, ij) = cross-IsTimely swap_cands s.i s.j s.ij g.2 in
      let (b', a', k', e', back, ji) = cross-IsTimely swap_cands s.j s.i s.ji g.3 in
      let same_a : a' ≡ a = cc in
      let same_b : b' ≡ b = cc in
      let timely : IsTimely b a =
        subst (λ x. IsTimely b x) same_a (subst (λ x. IsTimely x a') same_b back) in
      let ji' : s.ji ≡ (drive cost b a).p50 = cc in
      let own_i = get_or-own swap_cands s.i a e in
      let own_j = get_or-own swap_cands s.j b k in
      let gain = g.4 in
      let total : s.gain
          ≡ (drive cost a a).p50
            +ℤ (drive cost b b).p50
            -ℤ (drive cost a b).p50
            -ℤ (drive cost b a).p50 =
        cc in
      (a, b, e, k, there, timely, total, g.5)

  -- Every swap of a tick is of two candidates, each of which brings the other's box, whose time is
  -- known, in time or no later than the other would, and the swap shortens the drives of the two
  -- together by at least 180 seconds; no truck is in two swaps.
  pub swap_picks-IsWorthwhile :
      (swap_cands : List (SwapCand P))
      → All (IsWorthwhile swap_cands) (swap_picks cost now_ms lead_extra need swap_cands)
        × AllApart (swap_picks cost now_ms lead_extra need swap_cands)
  unfolding swap_picks
  swap_picks-IsWorthwhile swap_cands =
      let (good, apart) =
        pick_swaps-IsGood (own cost swap_cands) (cross cost now_ms lead_extra need swap_cands)
          (pos 180) in
      elim (Bool-cases (leb 2 (length swap_cands))) [
        | inl e ↦ rw e (All-imp (IsGood-IsWorthwhile swap_cands) _ good, apart)
        | inr e ↦ rw e (tt, tt)
      ]
