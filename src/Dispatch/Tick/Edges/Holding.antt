-- ===== src/Dispatch/Tick/Edges/Holding.antt =====
-- Which trucks and works are joined by an edge, and what the holds on sent orders forbid.
use tt_aiops_platform.Prelude.{
  ℕ, zero, suc, ◌+◌, ◌≡◌, ◌↔◌, ◌⊎◌, refl, sym, ap, ◌∙◌, subst, String, Bool, true, some, List, [],
  ◌∷◌, ◌++◌, inl, inr, Bool-cases, Option-cases, get_elem?, In, arith, string_eq, opt_eq_iff,
  eq_iff,
}
use tt_aiops_platform.Prelude.Maps
use tt_aiops_platform.Prelude.Int.{ℤ}
use tt_aiops_platform.Dispatch.Holds.{Hold, Held, edge_allowed_by_hold}
use tt_aiops_platform.Dispatch.Cover.{Edge}
use tt_aiops_platform.Dispatch.Tick.{Work, Key, Located}
use tt_aiops_platform.Dispatch.Tick.Trucks.{Vehicle, VehInfo}
use tt_aiops_platform.Dispatch.Tick.Edges.Joined.{IsJoined, has_edge_iff}
use tt_aiops_platform.Dispatch.Tick.Edges.{
  Drive, box_held, hold_ok, has_edge, edge_cost, work_edges, all_edges,
}

In-append : {A : Type 0} (x : A) (xs ys : List A) → In x (xs ++ ys) ↔ (In x xs ⊎ In x ys)
In-append x [] ys = ground arith
In-append x (y ∷ xs) ys = ground (arith, In-append x xs ys)

box_held-lookup :
    (held : Held) (yt : String) (h : Hold)
    → Maps.lookup yt held ≡ some h
    → box_held held h.contno ≡ true
unfolding box_held Maps.lookup
box_held-lookup [] yt h e = absurd (cc)
box_held-lookup ((j, k) ∷ held) yt h e =
    ground (arith, box_held-lookup held yt h, eq_iff k.contno h.contno)

-- A truck that holds an order meets only works with its box; a box that some truck holds is met
-- only by trucks that hold it.
abbrev pub RespectsHolds : Held → String → Work → Type 0
RespectsHolds held yt w =
    ((h : Hold) → Maps.lookup yt held ≡ some h → w.contno ≡ some h.contno)
    × ((other : String) (h : Hold)
        → Maps.lookup other held ≡ some h
        → w.contno ≡ some h.contno
        → (k : Hold) × (Maps.lookup yt held ≡ some k) × (k.contno ≡ h.contno))

hold_ok-RespectsHolds :
    (held : Held) (yt : String) (w : Work) → hold_ok held yt w ≡ true → RespectsHolds held yt w
unfolding hold_ok edge_allowed_by_hold
hold_ok-RespectsHolds held yt w ok = elim (Option-cases (Maps.lookup yt held)) [
  | inl e ↦ (
    (λ h k. absurd (ground arith)),
    (λ other h k c. absurd (ground (arith, box_held-lookup held other h k))),
  )
  | inr (m, e) ↦
      let own : w.contno ≡ some m.contno = ground (arith, opt_eq_iff w.contno (some m.contno)) in
      ((λ h k. ground arith), (λ other h k c. (m, e, ground arith)))
]

module _ {P : Type 0} (cost : P → P → Bool → Drive) (drop_pos : List (String × P)) (now : ℤ)
    (etas : List (Key × ℤ)) (prev : List (String × Key)) (held : Held) where
  abbrev edge_of : ℕ → ℕ → Located P → Vehicle P × VehInfo → Edge
  edge_of wpos vi l x = (vi, wpos, edge_cost cost drop_pos now etas prev held x.0 x.1 l)

  -- The edge of the truck at `i` of `vs`, whose first has the index `vi`.
  abbrev IsWorkEdge : ℕ → ℕ → Located P → List (Vehicle P × VehInfo) → Edge → Type 0
  IsWorkEdge wpos vi l vs e =
      (i : ℕ) × (x : Vehicle P × VehInfo) × (get_elem? vs i ≡ some x)
      × (has_edge cost drop_pos now etas prev held x.0 x.1 l ≡ true)
      × (edge_of wpos (vi + i) l x ≡ e)

  In-work_edges :
      (wpos vi : ℕ) (l : Located P) (vs : List (Vehicle P × VehInfo)) (e : Edge)
      → In e (work_edges cost drop_pos now etas prev held wpos vi l vs)
      → IsWorkEdge wpos vi l vs e
  unfolding work_edges
  In-work_edges wpos vi l [] e m = absurd m
  In-work_edges wpos vi l (x ∷ vs) e m =
      elim (Bool-cases (has_edge cost drop_pos now etas prev held x.0 x.1 l)) [
        | inl q ↦ elim (rw (q, work_edges) at m) [
          | inl k ↦ (0, x, refl, q, (ap (λ a. edge_of wpos a l x) (omega arith) ∙ k))
          | inr n ↦ later (In-work_edges wpos (suc vi) l vs e n)
        ]
        | inr q ↦ later (In-work_edges wpos (suc vi) l vs e (rw (q, work_edges) at m))
      ]
    where
      later : IsWorkEdge wpos (suc vi) l vs e → IsWorkEdge wpos vi l (x ∷ vs) e
      later (i, y, k, h, q) = (suc i, y, k, h, (ap (λ a. edge_of wpos a l y) (omega arith) ∙ q))

  of-In-work_edges :
      (wpos vi : ℕ) (l : Located P) (vs : List (Vehicle P × VehInfo)) (e : Edge)
      → IsWorkEdge wpos vi l vs e
      → In e (work_edges cost drop_pos now etas prev held wpos vi l vs)
  unfolding work_edges
  of-In-work_edges wpos vi l [] e (i, x, k, h, q) = absurd (cc)
  of-In-work_edges wpos vi l (y ∷ vs) e (zero, x, k, h, q) =
      let same : y ≡ x = cc in
      rw (subst (λ z. has_edge cost drop_pos now etas prev held z.0 z.1 l ≡ true) (sym same) h)
        (inl (ap (edge_of wpos vi l) same ∙ ap (λ a. edge_of wpos a l x) (omega arith) ∙ q))
  of-In-work_edges wpos vi l (y ∷ vs) e (suc i, x, k, h, q) =
      let rest =
        of-In-work_edges wpos (suc vi) l vs e
          (i, x, k, h, (ap (λ a. edge_of wpos a l x) (omega arith) ∙ q)) in
      elim (Bool-cases (has_edge cost drop_pos now etas prev held y.0 y.1 l)) [
        | inl b ↦ rw b (inr rest)
        | inr b ↦ rw b rest
      ]

  -- The edge of the truck at `i` and the work at `j` of `ls`, whose first has the position `wpos`.
  abbrev IsLoopEdge : ℕ → List (Located P) → List (Vehicle P × VehInfo) → Edge → Type 0
  IsLoopEdge wpos ls vs e =
      (j : ℕ) × (l : Located P) × (get_elem? ls j ≡ some l) × IsWorkEdge (wpos + j) 0 l vs e

  In-all_edges :
      (wpos : ℕ) (ls : List (Located P)) (vs : List (Vehicle P × VehInfo)) (e : Edge)
      → In e (all_edges cost drop_pos now etas prev held wpos ls vs) ↔ IsLoopEdge wpos ls vs e
  unfolding all_edges
  In-all_edges wpos [] vs e = ((λ m. absurd m), (λ (j, l, k, h). absurd (cc)))
  In-all_edges wpos (l ∷ ls) vs e =
      let parts =
        In-append e (work_edges cost drop_pos now etas prev held wpos 0 l vs)
          (all_edges cost drop_pos now etas prev held (suc wpos) ls vs) in
      let rest = In-all_edges (suc wpos) ls vs e in
      ((λ m. to (parts.0 m) rest), (λ t. parts.1 (back t rest)))
    where
      Rest : Type 0
      Rest =
          In e (all_edges cost drop_pos now etas prev held (suc wpos) ls vs)
          ↔ IsLoopEdge (suc wpos) ls vs e

      at_pos : (a b : ℕ) (v : Located P) → a ≡ b → IsWorkEdge a 0 v vs e → IsWorkEdge b 0 v vs e
      at_pos a b v q h = subst (λ w. IsWorkEdge w 0 v vs e) q h

      to :
          In e (work_edges cost drop_pos now etas prev held wpos 0 l vs)
            ⊎ In e (all_edges cost drop_pos now etas prev held (suc wpos) ls vs)
          → Rest
          → IsLoopEdge wpos (l ∷ ls) vs e
      to (inl m) rest =
          (0, l, refl, at_pos wpos (wpos + 0) l (omega arith) (In-work_edges wpos 0 l vs e m))
      to (inr m) rest =
          let (j, v, k, h) = rest.0 m in
          (suc j, v, k, at_pos (suc wpos + j) (wpos + suc j) v (omega arith) h)

      back :
          IsLoopEdge wpos (l ∷ ls) vs e
          → Rest
          → In e (work_edges cost drop_pos now etas prev held wpos 0 l vs)
            ⊎ In e (all_edges cost drop_pos now etas prev held (suc wpos) ls vs)
      back (zero, v, k, h) rest =
          let same : l ≡ v = cc in
          inl (
            of-In-work_edges wpos 0 l vs e (
              subst (λ x. IsWorkEdge wpos 0 x vs e) (sym same)
                (at_pos (wpos + 0) wpos v (omega arith) h)))
      back (suc j, v, k, h) rest =
          inr (rest.1 (j, v, k, at_pos (wpos + suc j) (suc wpos + j) v (omega arith) h))

  has_edge-RespectsHolds :
      (v : Vehicle P) (i : VehInfo) (l : Located P)
      → has_edge cost drop_pos now etas prev held v i l ≡ true
      → RespectsHolds held v.ytno l.row
  unfolding has_edge
  has_edge-RespectsHolds v i l h = hold_ok-RespectsHolds held v.ytno l.row (ground arith)

  -- The edge of a truck of `vs` and a work of `ls` that are joined, with their indices and the cost.
  abbrev pub IsTickEdge : List (Located P) → List (Vehicle P × VehInfo) → Edge → Type 0
  IsTickEdge ls vs e =
      (j : ℕ) × (l : Located P) × (i : ℕ) × (x : Vehicle P × VehInfo) × (c : ℤ) × (get_elem? ls j
        ≡ some l)
      × (get_elem? vs i ≡ some x)
      × IsJoined cost drop_pos now etas prev held x l c
      × ((i, j, c) ≡ e)

  IsLoopEdge-IsTickEdge :
      (ls : List (Located P)) (vs : List (Vehicle P × VehInfo)) (e : Edge)
      → IsLoopEdge 0 ls vs e ↔ IsTickEdge ls vs e
  IsLoopEdge-IsTickEdge ls vs e = (
    (λ (j, l, k, (i, x, m, ok, q)).
        let c = edge_cost cost drop_pos now etas prev held x.0 x.1 l in
        (
          j,
          l,
          i,
          x,
          c,
          k,
          m,
          (has_edge_iff cost drop_pos now etas prev held x l c).1 (ok, refl),
          sym (at_0 j i l x) ∙ q,
        )),
    (λ (j, l, i, x, c, k, m, joined, q).
        let (ok, same) = (has_edge_iff cost drop_pos now etas prev held x l c).0 joined in
        (j, l, k, (i, x, m, ok, at_0 j i l x ∙ ap (λ d. (i, j, d)) same ∙ q))),
  )
    where
      at_0 :
          (j i : ℕ) (l : Located P) (x : Vehicle P × VehInfo)
          → edge_of (0 + j) (0 + i) l x ≡ edge_of j i l x
      at_0 j i l x =
          ap (λ a. edge_of a (0 + i) l x) (omega arith) ∙ ap (λ a. edge_of j a l x) (omega arith)

  -- The edges of a tick are exactly those of a truck and a work for which the holds allow the pair, the
  -- seconds until the truck is free are known, and the drive takes less than 1800 seconds from where
  -- the truck is, or sets down when it is not free; the cost is those seconds, the drive and the
  -- penalty for leaving the queue of the tick before (180 seconds, or 1200 when the works of that queue
  -- are less than ten minutes away). The holds allow a truck with an order only works with its box, and
  -- a truck without one no work with a box that some truck holds.
  pub all_edges_iff :
      (ls : List (Located P)) (vs : List (Vehicle P × VehInfo))
      → ((e : Edge)
          → In e (all_edges cost drop_pos now etas prev held 0 ls vs) ↔ IsTickEdge ls vs e)
        × ((v : Vehicle P) (i : VehInfo) (l : Located P)
            → has_edge cost drop_pos now etas prev held v i l ≡ true
            → RespectsHolds held v.ytno l.row)
  all_edges_iff ls vs = (
    (λ e.
        let inside = In-all_edges 0 ls vs e in
        let joined = IsLoopEdge-IsTickEdge ls vs e in
        ((λ m. joined.0 (inside.0 m)), (λ t. inside.1 (joined.1 t)))),
    has_edge-RespectsHolds,
  )
