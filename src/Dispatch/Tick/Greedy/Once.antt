-- ===== src/Dispatch/Tick/Greedy/Once.antt =====
-- The greedy baseline uses no truck twice and gives no work more trucks than its limit.
use tt_aiops_platform.Prelude.{
  copies, one_if_same, ℕ, suc, ◌+◌, ◌-◌, ◌≡◌, ◌≤◌, refl, ◌∙◌, ap, String, false, not, List, [], ◌∷◌,
  any, select, length, inl, inr, Bool-cases, if◌then◌else◌, eqb, leb, arith,
}
use tt_aiops_platform.Prelude.Sorting
use tt_aiops_platform.Prelude.Sorting.{sort_by}
use tt_aiops_platform.Prelude.Int.{ℤ, pos, pos_part, leb_ℤ}
use tt_aiops_platform.Dispatch.Cover.{Edge}
use tt_aiops_platform.Dispatch.Tick.Edges.{Cell}
use tt_aiops_platform.Dispatch.Tick.Greedy.{
  Greedy, Driving, Cand, edges_of, cand_le, take_one, take_cands, unused_cands, greedy_from, greedy,
}

-- How often the truck `t` stands in a list of candidates, and in the edges of a work.
abbrev cand_copies : ℕ → List Cand → ℕ
cand_copies t [] = 0
cand_copies t ((u, c) ∷ cs) = one_if_same t u + cand_copies t cs

abbrev pub edge_copies : ℕ → ℕ → List Edge → ℕ
edge_copies t wpos [] = 0
edge_copies t wpos ((u, w, c) ∷ es) =
    (if eqb w wpos then one_if_same t u else 0) + edge_copies t wpos es

copies-edges_of :
    (t wpos : ℕ) (es : List Edge) → cand_copies t (edges_of wpos es) ≡ edge_copies t wpos es
unfolding edges_of
copies-edges_of t wpos [] = refl
copies-edges_of t wpos ((u, w, c) ∷ es) = ground (arith, copies-edges_of t wpos es)

copies-insert :
    (t : ℕ) (x : Cand) (cs : List Cand)
    → cand_copies t (Sorting.insert_by cand_le x cs) ≡ one_if_same t x.0 + cand_copies t cs
unfolding Sorting.insert_by
copies-insert t x [] = refl
copies-insert t x (y ∷ cs) = ground (arith, copies-insert t x cs)

copies-sort : (t : ℕ) (cs : List Cand) → cand_copies t (sort_by cand_le cs) ≡ cand_copies t cs
unfolding sort_by
copies-sort t [] = refl
copies-sort t (x ∷ cs) = omega (arith, copies-insert t x (sort_by cand_le cs), copies-sort t cs)

any-copies : (t : ℕ) (us : List ℕ) → any (eqb t) us ≡ leb 1 (copies t us)
any-copies t [] = refl
any-copies t (u ∷ us) = ground (arith, any-copies t us)

copies-select :
    (t : ℕ) (used : List ℕ) (cs : List Cand)
    → cand_copies t (select (λ c. not (any (eqb c.0) used)) cs)
      ≤ (if any (eqb t) used then 0 else cand_copies t cs)
copies-select t used [] = ground arith
copies-select t used ((u, c) ∷ cs) = elim (Bool-cases (any (eqb u) used)) [
  | inl e ↦ rw (e, select) (ground (arith, copies-select t used cs))
  | inr e ↦
      rw (e, select)
        (elim (Bool-cases (eqb t u)) [
          | inl same ↦
              let eq : t ≡ u = ground arith in
              let fresh : any (eqb t) used ≡ false = ap (λ x. any (eqb x) used) eq ∙ e in
              rw (same, fresh)
                (let rest = rw fresh at (copies-select t used cs) in omega (arith, rest))
          | inr other ↦ rw other (ground (arith, copies-select t used cs))
        ])
]

module _ (now : ℤ) (lead_extra : List (String × ℤ)) (edges : List Edge) (matrix : List (List Cell))
    (once : (t wpos : ℕ) → edge_copies t wpos edges ≤ 1) where
  -- `rooms` trucks at most are taken from `g` to `g'`; each truck is used once.
  pub record IsTaken (rooms : ℕ) (g g' : Greedy) : Type 0 where
    pub counted : g'.n + length g.used ≡ g.n + length g'.used
    pub bounded : g'.n ≤ g.n + rooms
    pub missed : g'.miss + g.n ≤ g.miss + g'.n

  take_cands-IsTaken :
      (wpos : ℕ) (d : Driving) (taken : ℕ) (cand : List Cand) (g : Greedy)
      → IsTaken
          (pos_part d.cap - taken)
          g
          (take_cands now lead_extra edges matrix wpos d taken cand g)
  unfolding take_cands take_one
  take_cands-IsTaken wpos d taken [] g = omega arith
  take_cands-IsTaken wpos d taken ((vi, pen) ∷ cand) g = ground (
    arith,
    take_cands-IsTaken wpos d (suc taken) cand (take_one now lead_extra edges matrix wpos d vi g),
  )

  take_cands-once :
      (wpos : ℕ) (d : Driving) (taken : ℕ) (cand : List Cand) (g : Greedy) (t : ℕ)
      → copies t g.used + cand_copies t cand ≤ 1
      → copies t (take_cands now lead_extra edges matrix wpos d taken cand g).used ≤ 1
  unfolding take_cands take_one
  take_cands-once wpos d taken [] g t h = omega arith
  take_cands-once wpos d taken ((vi, pen) ∷ cand) g t h = ground (
    arith,
    take_cands-once wpos d (suc taken) cand (take_one now lead_extra edges matrix wpos d vi g) t,
  )

  unused_cands-once :
      (wpos : ℕ) (g : Greedy) (t : ℕ)
      → copies t g.used ≤ 1
      → copies t g.used + cand_copies t (unused_cands now lead_extra edges matrix wpos g) ≤ 1
  unfolding unused_cands
  unused_cands-once wpos g t h = ground (
    arith,
    copies-sort t (select (λ c. not (any (eqb c.0) g.used)) (edges_of wpos edges)),
    copies-select t g.used (edges_of wpos edges),
    copies-edges_of t wpos edges,
    any-copies t g.used,
    once t wpos,
  )

  abbrev pub limits : List Driving → ℕ
  limits [] = 0
  limits (d ∷ driving) = pos_part d.cap + limits driving

  greedy_from-once :
      (wpos : ℕ) (driving : List Driving) (g : Greedy) (t : ℕ)
      → copies t g.used ≤ 1
      → copies t (greedy_from now lead_extra edges matrix wpos driving g).used ≤ 1
  unfolding greedy_from
  greedy_from-once wpos [] g t h = h
  greedy_from-once wpos (d ∷ driving) g t h = elim (Bool-cases (leb_ℤ d.cap (pos 0))) [
    | inl e ↦ rw (e, copies) (greedy_from-once (suc wpos) driving g t h)
    | inr e ↦
        rw (e, copies)
          (greedy_from-once (suc wpos) driving _ t
            (take_cands-once wpos d 0 _ g t (unused_cands-once wpos g t h)))
  ]

  greedy_from-IsTaken :
      (wpos : ℕ) (driving : List Driving) (g : Greedy)
      → IsTaken (limits driving) g (greedy_from now lead_extra edges matrix wpos driving g)
  unfolding greedy_from
  greedy_from-IsTaken wpos [] g = omega arith
  greedy_from-IsTaken wpos (d ∷ driving) g = elim (Bool-cases (leb_ℤ d.cap (pos 0))) [
    | inl e ↦ rw e (omega (arith, greedy_from-IsTaken (suc wpos) driving g))
    | inr e ↦
        let here =
          take_cands-IsTaken wpos d 0 (unused_cands now lead_extra edges matrix wpos g) g in
        rw e (
          omega (
            arith,
            here,
            greedy_from-IsTaken (suc wpos) driving (
                take_cands now lead_extra edges matrix wpos d 0
                  (unused_cands now lead_extra edges matrix wpos g) g),
          ))
  ]

  -- When no truck stands twice among the edges of a work, the baseline uses each truck at most once; it
  -- counts the trucks that it uses, as many at most as the limits allow together, and misses no more
  -- deadlines than it uses trucks.
  pub greedy_lem :
      (driving : List Driving)
      → ((t : ℕ) → copies t (greedy now lead_extra edges matrix driving).used ≤ 1)
        × ((greedy now lead_extra edges matrix driving).n
            ≡ length (greedy now lead_extra edges matrix driving).used)
        × ((greedy now lead_extra edges matrix driving).n ≤ limits driving)
        × ((greedy now lead_extra edges matrix driving).miss
            ≤ (greedy now lead_extra edges matrix driving).n)
  unfolding greedy
  greedy_lem driving =
      let start : Greedy = record { used = []; cost = pos 0; n = 0; miss = 0 } in
      let all = greedy_from-IsTaken 0 driving start in
      (
        (λ t. greedy_from-once 0 driving start t (omega arith)),
        omega (arith, all.counted),
        omega (arith, all.bounded),
        omega (arith, all.missed),
      )
