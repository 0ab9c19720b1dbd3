-- ===== src/Dispatch/Tick/Match/Orders.antt =====
-- The orders of a tick: none goes to a truck that holds one, and none is for a box that a truck holds.
use tt_aiops_platform.Prelude.{
  ℕ, ◌*◌, ◌≡◌, ◌≢◌, ◌≤◌, ◌<◌, refl, sym, ap, subst, ◌∙◌, String, Bool, true, false, none, some,
  List, [], ◌∷◌, inl, inr, Bool-cases, Option-cases, length, get_or, get_elem?, In, All, All-imp,
  is_some, arith, string_eq,
}
use tt_aiops_platform.Prelude.Maps
use tt_aiops_platform.Prelude.Int.{ℤ}
use tt_aiops_platform.Dispatch.Holds.{
  Hold, Held, Candidate, WorkItem, SentRow, assign_row, new_rows,
}
use tt_aiops_platform.Dispatch.Cover.{Edge}
use tt_aiops_platform.Dispatch.Cover.Served.{HasEdge}
use tt_aiops_platform.Dispatch.Assign.Slots.{Costs, works_of}
use tt_aiops_platform.Dispatch.Assign.Slots.Prices.{IsPriced}
use tt_aiops_platform.Dispatch.Tick.{Key, Located}
use tt_aiops_platform.Dispatch.Tick.Trucks.{Vehicle, VehInfo}
use tt_aiops_platform.Dispatch.Tick.Edges.{Drive, all_edges}
use tt_aiops_platform.Dispatch.Tick.Edges.Joined.{has_edge_iff}
use tt_aiops_platform.Dispatch.Tick.Edges.Holding.{RespectsHolds, all_edges_iff}
use tt_aiops_platform.Dispatch.Tick.Match.{Matched, match_slots, pairs_at, candidate_of, item_of}
use tt_aiops_platform.Dispatch.Tick.Match.Whole.{match_slots-IsWhole}

-- The truck of the order holds nothing, and no truck holds its box.
abbrev pub IsFree : Held → SentRow → Type 0
IsFree held row =
    (Maps.lookup row.ytno held ≡ none)
    × ((other : String) (h : Hold) → Maps.lookup other held ≡ some h → h.contno ≢ row.contno)

-- A pair whose order would be free.
abbrev MayOrder : Held → Candidate × WorkItem → Type 0
MayOrder held p =
    (other : String) (h : Hold)
    → Maps.lookup other held ≡ some h
    → p.1.contno ≡ some h.contno
    → (k : Hold) × (Maps.lookup p.0.ytno held ≡ some k)

new_rows-IsFree :
    (held : Held) (pairs : List (Candidate × WorkItem))
    → All (MayOrder held) pairs
    → All (IsFree held) (new_rows held pairs)
unfolding new_rows assign_row
new_rows-IsFree held [] h = tt
new_rows-IsFree held ((v, w) ∷ pairs) h =
    let rest = new_rows-IsFree held pairs h.1 in
    elim (Bool-cases v.free_now) [
      | inr e ↦ rw (e, new_rows) rest
      | inl e ↦ elim (Option-cases w.contno) [
        | inl n ↦ rw (e, n, new_rows) rest
        | inr (c, n) ↦ elim (Option-cases (Maps.lookup v.ytno held)) [
          | inl free ↦
              let none_held : Maps.has_key v.ytno held ≡ false =
                Maps.has_key-lookup v.ytno held ∙ ap is_some free in
              rw (e, n, none_held, new_rows)
                (
                  (
                    free,
                    (λ other hold k q.
                        let (z, e2) = h.0 other hold k (n ∙ ap some (sym q)) in
                        absurd (ground (arith, free, e2))),
                  ),
                  rest,
                )
          | inr (k, q) ↦
              let holds : Maps.has_key v.ytno held ≡ true =
                Maps.has_key-lookup v.ytno held ∙ ap is_some q in
              rw (e, n, holds, new_rows) rest
        ]
      ]
    ]

In-of-HasEdge :
    (edges : List Edge) (t w : ℕ)
    → HasEdge edges t w
    → (e : Edge) × In e edges × (e.0 ≡ t) × (e.1 ≡ w)
In-of-HasEdge [] t w h = absurd h
In-of-HasEdge (e ∷ edges) t w (inl (q0, q1)) = (e, inl refl, q0, q1)
In-of-HasEdge (e ∷ edges) t w (inr h) =
    let (d, m, q0, q1) = In-of-HasEdge edges t w h in (d, inr m, q0, q1)

works_of-All :
    (slot_wpos : List ℕ) (cost : Costs) (P : ℕ × ℕ → Type 0) (pairs : List (ℕ × ℕ))
    → All (λ p. P (p.0, get_or slot_wpos p.1 0)) pairs
    → All P (works_of slot_wpos cost pairs)
unfolding works_of
works_of-All slot_wpos cost P [] h = tt
works_of-All slot_wpos cost P (p ∷ pairs) h = (h.0, works_of-All slot_wpos cost P pairs h.1)

module _ {P : Type 0} (cost : P → P → Bool → Drive) (drop_pos : List (String × P)) (now : ℤ)
    (etas : List (Key × ℤ)) (prev : List (String × Key)) (held : Held) (ls : List (Located P))
    (vs : List (Vehicle P × VehInfo)) where
  abbrev pub tick_edges : List Edge
  tick_edges = all_edges cost drop_pos now etas prev held 0 ls vs

  -- The truck and the work that an edge joins.
  edge-parts :
      (t w : ℕ)
      → HasEdge tick_edges t w
      → (x : Vehicle P × VehInfo) × (l : Located P) × (get_elem? vs t ≡ some x)
        × (get_elem? ls w ≡ some l)
        × RespectsHolds held x.0.ytno l.row
  edge-parts t w h =
      let (e, m, q0, q1) = In-of-HasEdge tick_edges t w h in
      let facts = all_edges_iff cost drop_pos now etas prev held ls vs in
      let (j, l, i, x, c, at_j, at_i, joined, same) = (facts.0 e).0 m in
      let allowed = ((has_edge_iff cost drop_pos now etas prev held x l c).0 joined).0 in
      let t_i : i ≡ t = omega (arith, ap (λ d. d.0) same, q0) in
      let w_j : j ≡ w = omega (arith, ap (λ d. d.1) same, q1) in
      (
        x,
        l,
        subst (λ k. get_elem? vs k ≡ some x) t_i at_i,
        subst (λ k. get_elem? ls k ≡ some l) w_j at_j,
        facts.1 x.0 x.1 l allowed,
      )

  pairs_at-MayOrder :
      (assign : List (ℕ × ℕ))
      → All (λ p. HasEdge tick_edges p.0 p.1) assign
      → All (MayOrder held) (pairs_at vs ls assign)
  unfolding pairs_at candidate_of item_of
  pairs_at-MayOrder [] h = tt
  pairs_at-MayOrder ((t, w) ∷ assign) h =
      let (x, l, at_t, at_w, respects) = edge-parts t w h.0 in
      rw (at_t, at_w, pairs_at)
        (
          (λ other hold k q. let (z, e, _) = respects.1 other hold k q in (z, e)),
          pairs_at-MayOrder assign h.1,
        )

  -- When the costs of the edges of a tick are not negative and at most `c`, `c` is at most the
  -- forbidden cost, and the slots times `c` stay below it, with so few slots that their number times the
  -- forbidden cost stays below a quarter of the largest 64-bit number, the matching returns, and each
  -- of the orders that it gives goes to a truck that holds none, for a box that no truck holds.
  pub new_rows-match_slots :
      (slots : List ℕ) (c : ℕ)
      → IsPriced c tick_edges
      → c ≤ 1000000000
      → length slots * c < 1000000000
      → length slots * 1000000000 < 2305843009213693951
      → (r : Matched) × (match_slots (length vs) slots tick_edges ≡ some r)
        × All (IsFree held) (new_rows held (pairs_at vs ls r.assign))
  new_rows-match_slots slots c priced le cheap few =
      let (r, e, whole) = match_slots-IsWhole (length vs) slots tick_edges c priced le cheap few in
      let along = All-imp (λ p h. h.2) whole.pairs whole.matching.along in
      let assigned =
        works_of-All r.slot_wpos _ (λ p. HasEdge tick_edges p.0 p.1) whole.pairs along in
      (
        r,
        e,
        new_rows-IsFree held (pairs_at vs ls r.assign) (
            pairs_at-MayOrder r.assign
              (subst (All (λ p. HasEdge tick_edges p.0 p.1)) (sym whole.works) assigned)),
      )
