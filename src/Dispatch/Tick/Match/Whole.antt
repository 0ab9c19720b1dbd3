-- ===== src/Dispatch/Tick/Match/Whole.antt =====
-- Every slot that the cover keeps gets a truck: the assignment drops none.
use tt_aiops_platform.Prelude.{
  ℕ, zero, suc, ◌+◌, ◌-◌, ◌*◌, ◌≡◌, ◌≤◌, ◌<◌, refl, sym, ap, subst, ◌∙◌, Bool, true, false, Option,
  none, some, List, [], ◌∷◌, inl, inr, Bool-cases, if◌then◌else◌, eqb, length, get_or, unwrap_or,
  All, All-imp, copies, arith,
}
use tt_aiops_platform.Dispatch.Cover.{Edge}
use tt_aiops_platform.Dispatch.Cover.Search.{Fits, holders, held, one_if}
use tt_aiops_platform.Dispatch.Cover.Served.{HasEdge, deadline_cover-serves}
use tt_aiops_platform.Dispatch.Assign.Slots.{works_of}
use tt_aiops_platform.Dispatch.Assign.Slots.Pairs.{assign_slots-IsMatching}
use tt_aiops_platform.Dispatch.Assign.Slots.Prices.{IsPriced, IsMatching, costs}
use tt_aiops_platform.Dispatch.Assign.Slots.Full.{length-assign_slots}
use tt_aiops_platform.Dispatch.Assign.Slots.Served.{IsServing}
use tt_aiops_platform.Dispatch.Tick.Match.{covered_slots, Matched, match_slots}

-- The first truck that holds the slot `s`.
abbrev holder : ℕ → List (Option ℕ) → ℕ
holder s [] = 0
holder s (o ∷ ts) = if eqb (held s o) 0 then suc (holder s ts) else 0

holder_lem :
    (s : ℕ) (ts : List (Option ℕ))
    → 1 ≤ holders s ts
    → (holder s ts < length ts) × (get_or ts (holder s ts) none ≡ some s)
holder_lem s [] h = absurd (omega arith)
holder_lem s (none ∷ ts) h =
    let rest = holder_lem s ts (omega arith) in (omega (arith, rest), rest.1)
holder_lem s (some r ∷ ts) h = elim (Bool-cases (eqb r s)) [
  | inl e ↦ rw e (omega arith, ap some (ground arith))
  | inr e ↦ let rest = holder_lem s ts (ground arith) in rw e (omega (arith, rest), rest.1)
]

Fits-get_or :
    (R : ℕ → ℕ → Type 0) (a t s : ℕ) (ts : List (Option ℕ))
    → Fits R a ts
    → get_or ts t none ≡ some s
    → R (a + t) s
Fits-get_or R a t s [] f e = absurd (cc)
Fits-get_or R a zero s (none ∷ ts) f e = absurd (cc)
Fits-get_or R a zero s (some r ∷ ts) f e =
    let same : r ≡ s = cc in subst (R (a + 0)) same (subst (λ k. R k r) (omega arith) f.0)
Fits-get_or R a (suc t) s (none ∷ ts) f e =
    subst (λ k. R k s) (omega arith) (Fits-get_or R (suc a) t s ts f e)
Fits-get_or R a (suc t) s (some r ∷ ts) f e =
    subst (λ k. R k s) (omega arith) (Fits-get_or R (suc a) t s ts f.1 e)

module _ (truck_slot : List (Option ℕ)) where
  -- The trucks of the covered slots from `s` on.
  abbrev serving : ℕ → List Bool → List ℕ
  serving s [] = []
  serving s (true ∷ covered) = holder s truck_slot ∷ serving (suc s) covered
  serving s (false ∷ covered) = serving (suc s) covered

  -- Each covered slot from `s` on is held.
  abbrev AllHeld : ℕ → List Bool → Type 0
  AllHeld s covered = (i : ℕ) → get_or covered i false ≡ true → 1 ≤ holders (s + i) truck_slot

  AllHeld-tail :
      (s : ℕ) (b : Bool) (covered : List Bool) → AllHeld s (b ∷ covered) → AllHeld (suc s) covered
  AllHeld-tail s b covered h i e =
      let next : s + suc i ≡ suc s + i = omega arith in
      subst (λ x. 1 ≤ holders x truck_slot) next (h (suc i) e)

  AllHeld-head :
      (s : ℕ) (covered : List Bool)
      → AllHeld s (true ∷ covered)
      → (holder s truck_slot < length truck_slot)
        × (get_or truck_slot (holder s truck_slot) none ≡ some s)
  AllHeld-head s covered h =
      let here : s + 0 ≡ s = omega arith in
      holder_lem s truck_slot (subst (λ x. 1 ≤ holders x truck_slot) here (h 0 refl))

  length-serving :
      (s : ℕ) (slots : List ℕ) (covered : List Bool)
      → length covered ≡ length slots
      → length (serving s covered) ≡ length (covered_slots slots covered)
  unfolding covered_slots
  length-serving s [] [] e = refl
  length-serving s [] (b ∷ covered) e = absurd (omega arith)
  length-serving s (w ∷ slots) [] e = absurd (omega arith)
  length-serving s (w ∷ slots) (true ∷ covered) e =
      ap suc (length-serving (suc s) slots covered (omega arith))
  length-serving s (w ∷ slots) (false ∷ covered) e =
      length-serving (suc s) slots covered (omega arith)

  serving-range :
      (s : ℕ) (covered : List Bool)
      → AllHeld s covered
      → All (λ t. t < length truck_slot) (serving s covered)
  serving-range s [] h = tt
  serving-range s (true ∷ covered) h =
      ((AllHeld-head s covered h).0, serving-range (suc s) covered (AllHeld-tail s true covered h))
  serving-range s (false ∷ covered) h =
      serving-range (suc s) covered (AllHeld-tail s false covered h)

  -- A truck among those from `s` on holds a slot from `s` on, and so stands there once.
  serving-held :
      (t s : ℕ) (covered : List Bool)
      → AllHeld s covered
      → 1 ≤ copies t (serving s covered)
      → (r : ℕ) × (s ≤ r) × (get_or truck_slot t none ≡ some r)
  serving-held t s [] h k = absurd (omega arith)
  serving-held t s (false ∷ covered) h k =
      let (r, le, e) = serving-held t (suc s) covered (AllHeld-tail s false covered h) k in
      (r, omega arith, e)
  serving-held t s (true ∷ covered) h k = elim (Bool-cases (eqb t (holder s truck_slot))) [
    | inl q ↦
        let same : holder s truck_slot ≡ t = ground arith in
        (
          s,
          omega arith,
          subst (λ x. get_or truck_slot x none ≡ some s) same (AllHeld-head s covered h).1,
        )
    | inr q ↦
        let (r, le, e) =
          serving-held t (suc s) covered (AllHeld-tail s true covered h) (ground arith) in
        (r, omega arith, e)
  ]

  serving-once :
      (t s : ℕ) (covered : List Bool) → AllHeld s covered → copies t (serving s covered) ≤ 1
  serving-once t s [] h = omega arith
  serving-once t s (false ∷ covered) h =
      serving-once t (suc s) covered (AllHeld-tail s false covered h)
  serving-once t s (true ∷ covered) h =
      let rest = serving-once t (suc s) covered (AllHeld-tail s true covered h) in
      elim (Bool-cases (eqb t (holder s truck_slot))) [
        | inr q ↦ ground arith
        | inl q ↦ elim (Bool-cases (eqb (copies t (serving (suc s) covered)) 0)) [
          | inl z ↦ ground arith
          | inr z ↦
              let same : holder s truck_slot ≡ t = ground arith in
              let (r, le, e) =
                serving-held t (suc s) covered (AllHeld-tail s true covered h) (ground arith) in
              let own =
                subst (λ x. get_or truck_slot x none ≡ some s) same (AllHeld-head s covered h).1 in
              absurd (ground (arith, own, e))
        ]
      ]

  module _ (edges : List Edge) (all : List ℕ)
      (fits : Fits (λ t s. HasEdge edges t (get_or all s 0)) 0 truck_slot) where
    serving-joins :
        (s : ℕ) (slots : List ℕ) (covered : List Bool)
        → AllHeld s covered
        → ((i : ℕ) → get_or slots i 0 ≡ get_or all (s + i) 0)
        → (k : ℕ) → k < length (covered_slots slots covered)
        → HasEdge edges (get_or (serving s covered) k 0) (get_or (covered_slots slots covered) k 0)
    unfolding covered_slots
    serving-joins s [] covered h same k lt = absurd (omega arith)
    serving-joins s (w ∷ slots) [] h same k lt = absurd (omega arith)
    serving-joins s (w ∷ slots) (false ∷ covered) h same k lt =
        serving-joins (suc s) slots covered (AllHeld-tail s false covered h)
          (λ i. same (suc i) ∙ ap (λ x. get_or all x 0) (omega arith)) k lt
    serving-joins s (w ∷ slots) (true ∷ covered) h same (suc k) lt =
        serving-joins (suc s) slots covered (AllHeld-tail s true covered h)
          (λ i. same (suc i) ∙ ap (λ x. get_or all x 0) (omega arith)) k (omega arith)
    serving-joins s (w ∷ slots) (true ∷ covered) h same zero lt =
        let (in_range, own) = AllHeld-head s covered h in
        let here : get_or all s 0 ≡ w = ap (λ x. get_or all x 0) (omega arith) ∙ sym (same 0) in
        let at_t : 0 + holder s truck_slot ≡ holder s truck_slot = omega arith in
        subst (HasEdge edges (holder s truck_slot)) here (
          subst (λ t. HasEdge edges t (get_or all s 0)) at_t
            (Fits-get_or (λ t s. HasEdge edges t (get_or all s 0)) 0 (holder s truck_slot) s
              truck_slot fits own))

length-covered_slots :
    (slots : List ℕ) (covered : List Bool) → length (covered_slots slots covered) ≤ length slots
unfolding covered_slots
length-covered_slots [] covered = omega arith
length-covered_slots (w ∷ slots) [] = omega arith
length-covered_slots (w ∷ slots) (b ∷ covered) = ground (arith, length-covered_slots slots covered)

mul_le : (k d c : ℕ) → k * c ≤ (k + d) * c
mul_le k d c = omega arith

-- What `match_slots` returns: a truck for every slot kept, different trucks, each along an edge.
pub record IsWhole (n_v : ℕ) (edges : List Edge) (r : Matched) : Type 0 where
  pub whole : length r.assign ≡ length r.slot_wpos
  pub pairs : List (ℕ × ℕ)
  pub works : r.assign ≡ works_of r.slot_wpos (costs n_v r.slot_wpos edges) pairs
  pub matching : IsMatching n_v r.slot_wpos edges pairs

-- When the costs of the edges are not negative and at most `c`, `c` is at most the forbidden cost, and
-- the slots times `c` stay below it, with so few slots that their number times the forbidden cost
-- stays below a quarter of the largest 64-bit number, the cover and the assignment return, and every
-- slot that the cover keeps gets a truck: different trucks for different slots, each along an edge.
pub match_slots-IsWhole :
    (n_v : ℕ) (slots : List ℕ) (edges : List Edge) (c : ℕ)
    → IsPriced c edges
    → c ≤ 1000000000
    → length slots * c < 1000000000
    → length slots * 1000000000 < 2305843009213693951
    → (r : Matched) × (match_slots n_v slots edges ≡ some r) × IsWhole n_v edges r
unfolding match_slots
match_slots-IsWhole n_v slots edges c priced le cheap few =
    let (covered, truck_slot, e, len, trucks, fits, held_once) =
      deadline_cover-serves n_v slots edges in
    let kept = covered_slots slots covered in
    let fewer : length kept ≤ length slots = length-covered_slots slots covered in
    let priced' : IsPriced 1000000000 edges =
      All-imp (λ x h. (h.0, omega (arith, h.1))) edges priced in
    let all_held : AllHeld truck_slot 0 covered =
      λ i q. omega (arith, held_once (0 + i), is_one covered i q) in
    let ts = serving truck_slot 0 covered in
    let few' : length kept * 1000000000 < 2305843009213693951 = omega arith in
    let serves : IsServing n_v kept edges ts = record {
      choice = record {
        one_each = length-serving truck_slot 0 slots covered len;
        in_range =
            subst (λ n. All (λ t. t < n) ts) trucks (serving-range truck_slot 0 covered all_held);
        different = λ t. serving-once truck_slot t 0 covered all_held;
      };
      joins =
          serving-joins truck_slot edges slots fits 0 slots covered all_held
            (λ i. ap (λ x. get_or slots x 0) (omega arith));
    } in
    let (assigned, q, whole) =
      length-assign_slots n_v kept edges c priced (cheaper (length kept) fewer) priced' few' ts
        serves in
    let (pairs, q2, matching) = assign_slots-IsMatching n_v kept edges priced' few' in
    let same : assigned ≡ works_of kept (costs n_v kept edges) pairs =
      ap (λ o. unwrap_or o assigned) (sym q ∙ q2) in
    (
      record { slot_wpos = kept; assign = assigned },
      rw (e, match_slots, q) refl,
      record { whole = whole; pairs = pairs; works = same; matching = matching },
    )
  where
    is_one :
        (covered : List Bool) (i : ℕ)
        → get_or covered i false ≡ true
        → 1 ≤ one_if (get_or covered (0 + i) false)
    is_one covered i q =
        let at_i : i ≡ 0 + i = omega arith in
        subst (λ x. 1 ≤ one_if (get_or covered x false)) at_i
          (subst (λ b. 1 ≤ one_if b) (sym q) (omega arith))

    cheaper : (k : ℕ) → k ≤ length slots → k * c < 1000000000
    cheaper k h =
        let whole : k + (length slots - k) ≡ length slots = omega arith in
        omega (arith, subst (λ z. k * c ≤ z * c) whole (mul_le k (length slots - k) c))
