-- ===== src/Dispatch/Assign/Slots/Full.antt =====
-- When all slots can be served at once, the assignment serves them all.
use tt_aiops_platform.Prelude.{
  ℕ, suc, ◌+◌, ◌*◌, ◌≡◌, ◌≤◌, ◌<◌, refl, sym, ap, subst, ◌∙◌, true, false, ◌||◌, some, List, [],
  ◌∷◌, map, range, inl, inr, Bool-cases, eqb, leb, length, get_or, arith, pair_eq,
}
use tt_aiops_platform.Prelude.Maps
use tt_aiops_platform.Prelude.Int.{ℤ, pos, pos_part, ltb_ℤ}
use tt_aiops_platform.Dispatch.Cover.{Edge}
use tt_aiops_platform.Dispatch.Cover.Served.{HasEdge}
use tt_aiops_platform.Dispatch.Assign.Bounds.{cost_from, All-get_or, All-of-get_or}
use tt_aiops_platform.Dispatch.Assign.Weights.{IsChoice, IsChoice-le, IsChoice-all}
use tt_aiops_platform.Dispatch.Assign.Answer.{copies-le}
use tt_aiops_platform.Dispatch.Assign.Slots.{
  Costs, c_of, truck_rows, slot_rows, enumerate, pairs_of, joined, works_of, assign_slots,
  forbidden_cost,
}
use tt_aiops_platform.Dispatch.Assign.Slots.Least.{lookup-add_costs, add_costs-AtMost}
use tt_aiops_platform.Dispatch.Assign.Slots.Pairs.{trucks-least, slots-least, swapped}
use tt_aiops_platform.Dispatch.Assign.Slots.Prices.{
  IsPriced, IsPrice, costs, IsPrice-of-Joins, get_or-map-range, length-map-range, table-entry,
  trucks_first, slots_first, table,
}
use tt_aiops_platform.Dispatch.Assign.Slots.Served.{
  IsServing, Joins-of-HasEdge, cost-bound, select-all, place, place_lem, enumerate-All,
  length-enumerate, swapped-All-of, length-swapped, entries-less,
}

module _ (n_trucks : ℕ) (slot_wpos : List ℕ) (edges : List Edge) (c : ℕ) (priced : IsPriced c edges)
    (cheap : length slot_wpos * c < 1000000000) where
  abbrev cost : Costs
  cost = costs n_trucks slot_wpos edges

  abbrev n_slots : ℕ
  n_slots = length slot_wpos

  edge-IsPrice :
      (t s : ℕ)
      → t < n_trucks
      → HasEdge edges t (get_or slot_wpos s 0)
      → IsPrice c (c_of slot_wpos cost t s)
  unfolding c_of Maps.lookup
  edge-IsPrice t s lt j =
      let w = get_or slot_wpos s 0 in
      let (d, k) = Joins-of-HasEdge t w edges j in
      let (d', e, le) = add_costs-AtMost n_trucks t w edges [] d lt k in
      elim (lookup-add_costs n_trucks t w edges [] d' e) [
        | inl z ↦ absurd (ground arith)
        | inr (_, k') ↦ rw e (IsPrice-of-Joins t w c d' edges priced k')
      ]

  -- The trucks are the rows: the choice of the slot that each truck serves.
  module _ (ts : List ℕ) (h : IsServing n_trucks slot_wpos edges ts) where
    serves-IsPrice : (s : ℕ) → s < n_slots → IsPrice c (c_of slot_wpos cost (get_or ts s 0) s)
    serves-IsPrice s lt =
        edge-IsPrice (get_or ts s 0) s
          (All-get_or (λ t. t < n_trucks) ts s 0 h.choice.in_range
            (omega (arith, h.choice.one_each)))
          (h.joins s lt)

    slots-cheap : cost_from (slots_first n_trucks slot_wpos edges) 0 ts ≤ n_slots * c
    slots-cheap =
        let f = λ (s t : ℕ). c_of slot_wpos cost t s in
        let bound = cost-bound (slots_first n_trucks slot_wpos edges) c 0 ts (λ s lt.
          price_at f s (get_or ts s 0) (omega (arith, h.choice.one_each))
            (All-get_or (λ t. t < n_trucks) ts s 0 h.choice.in_range lt)
            (serves-IsPrice s (omega (arith, h.choice.one_each)))) in
        subst (λ k. cost_from (slots_first n_trucks slot_wpos edges) 0 ts ≤ k * c) h.choice.one_each
          bound
      where
        price_at :
            (f : ℕ → ℕ → ℤ) (s t : ℕ)
            → s < n_slots
            → t < n_trucks
            → IsPrice c (f s t)
            → pos_part (get_or (get_or (table f n_slots n_trucks) (0 + s) []) t (pos 0)) ≤ c
        price_at f s t hs ht price =
            let at_s : s ≡ 0 + s = omega arith in
            subst (λ z. pos_part (get_or (get_or (table f n_slots n_trucks) z []) t (pos 0)) ≤ c)
              at_s
              (subst (λ e. pos_part e ≤ c) (sym (table-entry f n_slots n_trucks s t hs ht)) price.1)

    -- With no more trucks than slots every truck serves one.
    abbrev slots_of_trucks : List ℕ
    slots_of_trucks = map (λ t. place t ts) (range 0 n_trucks)

    module _ (le : n_trucks ≤ n_slots) where
      served : (t : ℕ) → t < n_trucks → (place t ts < length ts) × (get_or ts (place t ts) 0 ≡ t)
      served t lt = place_lem t ts (IsChoice-all n_slots n_trucks ts h.choice le t lt)

      slot_at : (t : ℕ) → t < n_trucks → get_or slots_of_trucks t 0 ≡ place t ts
      slot_at t lt =
          get_or-map-range (λ t. place t ts) 0 n_trucks t 0 lt ∙ ap (λ k. place k ts) (omega arith)

      length-slots : length slots_of_trucks ≡ n_trucks
      length-slots = length-map-range (λ t. place t ts) 0 n_trucks

      slots-IsChoice : IsChoice n_trucks n_slots slots_of_trucks
      slots-IsChoice = record {
        one_each = length-slots;
        in_range = All-of-get_or n_slots slots_of_trucks (λ t lt. omega (
          arith,
          slot_at t (omega (arith, length-slots)),
          (served t (omega (arith, length-slots))).0,
          h.choice.one_each,
        ));
        different = λ s. copies-le s slots_of_trucks (λ t u lt lu q.
            let a = served t (omega (arith, length-slots)) in
            let b = served u (omega (arith, length-slots)) in
            let same : place t ts ≡ place u ts =
              sym (slot_at t (omega (arith, length-slots)))
              ∙ q
              ∙ slot_at u (omega (arith, length-slots)) in
            sym a.1 ∙ ap (λ s. get_or ts s 0) same ∙ b.1);
      }

      trucks-cheap :
          cost_from (trucks_first n_trucks slot_wpos edges) 0 slots_of_trucks ≤ n_trucks * c
      trucks-cheap =
          subst (λ k. cost_from (trucks_first n_trucks slot_wpos edges) 0 slots_of_trucks ≤ k * c)
            length-slots
            (cost-bound (trucks_first n_trucks slot_wpos edges) c 0 slots_of_trucks
              (λ t lt. price_at t (omega (arith, length-slots))))
        where
          price_at :
              (t : ℕ)
              → t < n_trucks
              → pos_part (
                  get_or
                    (get_or (trucks_first n_trucks slot_wpos edges) (0 + t) [])
                    (get_or slots_of_trucks t 0)
                    (pos 0))
                ≤ c
          price_at t lt =
              let f = λ (t s : ℕ). c_of slot_wpos cost t s in
              let (in_ts, back) = served t lt in
              let at_t : t ≡ 0 + t = omega arith in
              let in_slots : place t ts < n_slots = omega (arith, h.choice.one_each) in
              let price : IsPrice c (f t (place t ts)) =
                subst (λ u. IsPrice c (f u (place t ts))) back
                  (serves-IsPrice (place t ts) in_slots) in
              subst
                (λ z.
                  pos_part (
                    get_or (get_or (table f n_trucks n_slots) z []) (get_or slots_of_trucks t 0)
                      (pos 0))
                  ≤ c)
                at_t
                (subst
                  (λ s. pos_part (get_or (get_or (table f n_trucks n_slots) t []) s (pos 0)) ≤ c)
                  (sym (slot_at t lt))
                  (subst (λ e. pos_part e ≤ c)
                    (sym (table-entry f n_trucks n_slots t (place t ts) lt in_slots)) price.1))

  abbrev IsKept : ℕ × ℕ → Type 0
  IsKept p = ltb_ℤ (c_of slot_wpos cost p.0 p.1) forbidden_cost ≡ true

  -- The pairs that the matrix gives are all kept.
  abbrev FillsAll : Type 0
  FillsAll =
      (pairs : List (ℕ × ℕ)) × (pairs_of slot_wpos cost n_trucks n_slots ≡ some pairs)
      × (joined slot_wpos cost pairs ≡ pairs)
      × (length pairs ≡ n_slots)

  module _ (priced' : IsPriced 1000000000 edges)
      (few : length slot_wpos * 1000000000 < 2305843009213693951) (ts : List ℕ)
      (h : IsServing n_trucks slot_wpos edges ts) where
    fills_trucks : leb n_trucks n_slots ≡ true → FillsAll
    unfolding pairs_of truck_rows joined
    fills_trucks e =
        let le : n_trucks ≤ n_slots = ground arith in
        let wide = IsChoice-le n_slots n_trucks ts h.choice in
        let (js, q, k, least) = trucks-least n_trucks slot_wpos edges priced' few le in
        let same : n_trucks ≡ n_slots = omega arith in
        let small = subst (λ z. z * c < 1000000000) (sym same) cheap in
        let less : cost_from (trucks_first n_trucks slot_wpos edges) 0 js < 1000000000 =
          omega
            (arith, least (slots_of_trucks ts h) (slots-IsChoice ts h le), trucks-cheap ts h le) in
        (
          enumerate slot_wpos cost 0 js,
          rw (pairs_of, e, q) refl,
          select-all (λ p. ltb_ℤ (c_of slot_wpos cost p.0 p.1) forbidden_cost)
              (enumerate slot_wpos cost 0 js)
              (enumerate-All slot_wpos cost IsKept 0 js
                (entries-less (λ t s. c_of slot_wpos cost t s) n_trucks n_slots js k less)),
          length-enumerate slot_wpos cost 0 js ∙ k.one_each ∙ same,
        )

    fills_slots : leb n_trucks n_slots ≡ false → FillsAll
    unfolding pairs_of slot_rows joined
    fills_slots e =
        let (js, q, k, least) = slots-least n_trucks slot_wpos edges priced' few (ground arith) in
        let less : cost_from (slots_first n_trucks slot_wpos edges) 0 js < 1000000000 =
          omega (arith, least ts h.choice, slots-cheap ts h) in
        let ps = enumerate slot_wpos cost 0 js in
        (
          swapped ps,
          rw (pairs_of, e, q) refl,
          select-all (λ p. ltb_ℤ (c_of slot_wpos cost p.0 p.1) forbidden_cost) (swapped ps)
              (swapped-All-of IsKept ps (
                enumerate-All slot_wpos cost (λ p. IsKept (p.1, p.0)) 0 js
                  (entries-less (λ s t. c_of slot_wpos cost t s) n_slots n_trucks js k less))),
          length-swapped ps ∙ length-enumerate slot_wpos cost 0 js ∙ k.one_each,
        )

    fills : FillsAll
    fills = elim (Bool-cases (leb n_trucks n_slots)) [
      | inl e ↦ fills_trucks e
      | inr e ↦ fills_slots e
    ]

    -- When the costs of the edges are not negative and at most `c`, the slots times `c` stay below the
    -- forbidden cost, and different trucks can serve all slots along the edges, the assignment gives
    -- a truck to every slot.
    pub length-assign_slots :
        (assigned : List (ℕ × ℕ)) × (assign_slots n_trucks slot_wpos edges ≡ some assigned)
        × (length assigned ≡ length slot_wpos)
    unfolding assign_slots works_of
    length-assign_slots = elim (Bool-cases (eqb n_trucks 0 || eqb n_slots 0)) [
      | inl e ↦
          let le = IsChoice-le n_slots n_trucks ts h.choice in
          ([], rw (assign_slots, e) refl, ground arith)
      | inr e ↦
          let (pairs, q, kept, len) = fills in
          (
            works_of slot_wpos cost pairs,
            rw (assign_slots, e, q, kept) refl,
            length-works pairs ∙ len,
          )
    ]
      where
        length-works :
            (pairs : List (ℕ × ℕ)) → length (works_of slot_wpos cost pairs) ≡ length pairs
        length-works [] = refl
        length-works (p ∷ pairs) = ap suc (length-works pairs)
