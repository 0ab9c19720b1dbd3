-- ===== src/Dispatch/Cover/Served.antt =====
-- What `deadline_cover` promises: the covered slots can all be served at once.
use tt_aiops_platform.Prelude.{
  ℕ, suc, zero, ◌+◌, ◌≡◌, ◌<◌, refl, sym, ◌∙◌, ap, subst, ◌⊎◌, Bool, false, not, ◌&&◌, Option, none,
  some, List, [], ◌∷◌, ◌++◌, inl, inr, Bool-cases, if◌then◌else◌, eqb, ltb, any, length,
  length-replicate, get_or, set, replicate, All, All-append, Any, arith, All-of-In, In,
}
use tt_aiops_platform.Dispatch.Cover.{
  Edge, Tries, add_edge, add_edges, work_count, cover_slots, deadline_cover,
}
use tt_aiops_platform.Dispatch.Cover.Search.{Fits, holders, one_if, unseen, try_slot-Returns}

-- Some edge joins the truck `t` and the work `w`.
abbrev pub HasEdge : List Edge → ℕ → ℕ → Type 0
HasEdge edges t w = Any (λ e. (e.0 ≡ t) × (e.1 ≡ w)) edges

get_or-set_cases :
    (xs : List (List ℕ)) (i j : ℕ) (v : List ℕ)
    → (get_or (set xs i v) j [] ≡ get_or xs j []) ⊎ (i ≡ j) × (get_or (set xs i v) j [] ≡ v)
get_or-set_cases [] i j v = inl refl
get_or-set_cases (x ∷ xs) zero zero v = inr (refl, refl)
get_or-set_cases (x ∷ xs) zero (suc j) v = inl refl
get_or-set_cases (x ∷ xs) (suc i) zero v = inl refl
get_or-set_cases (x ∷ xs) (suc i) (suc j) v = elim (get_or-set_cases xs i j v) [
  | inl e ↦ inl e
  | inr (e, k) ↦ inr (ap suc e, k)
]

-- Every entry of the table satisfies `Q`.
abbrev AllFit : (ℕ → ℕ → Type 0) → List (List ℕ) → Type 0
AllFit Q adj = (w : ℕ) → All (λ t. Q t w) (get_or adj w [])

module _ (Q : ℕ → ℕ → Type 0) (n_trucks n_w : ℕ) where
  add_edge-AllFit :
      (e : Edge) (adj : List (List ℕ))
      → Q e.0 e.1
      → AllFit Q adj
      → AllFit Q (add_edge n_trucks n_w e adj)
  unfolding add_edge
  add_edge-AllFit (t, w, c) adj q h v =
      let ts = get_or adj w [] in
      elim (Bool-cases (ltb t n_trucks && (ltb w n_w && not (any (eqb t) ts)))) [
        | inl e ↦
            rw (e, All)
              (elim (get_or-set_cases adj w v (ts ++ t ∷ [])) [
                | inl k ↦ subst (All (λ x. Q x v)) (sym k) (h v)
                | inr (same, k) ↦ subst (All (λ x. Q x v)) (sym k) (
                    subst (λ u. All (λ x. Q x u) (ts ++ t ∷ [])) same
                      (All-append (λ x. Q x w) ts (t ∷ []) (h w) (q, tt)))
              ])
        | inr e ↦ rw (e, All) (h v)
      ]

  add_edges-AllFit :
      (es : List Edge) (adj : List (List ℕ))
      → All (λ e. Q e.0 e.1) es
      → AllFit Q adj
      → AllFit Q (add_edges n_trucks n_w es adj)
  unfolding add_edges
  add_edges-AllFit [] adj q h = h
  add_edges-AllFit (e ∷ es) adj q h =
      add_edges-AllFit es (add_edge n_trucks n_w e adj) q.1 (add_edge-AllFit e adj q.0 h)

get_or-replicate : (n w : ℕ) → get_or {A = List ℕ} (replicate n []) w [] ≡ []
get_or-replicate zero w = refl
get_or-replicate (suc n) zero = refl
get_or-replicate (suc n) (suc w) = get_or-replicate n w

edges-HasEdge : (edges : List Edge) → All (λ e. HasEdge edges e.0 e.1) edges
edges-HasEdge edges = All-of-In (λ e. HasEdge edges e.0 e.1) edges (λ e m. has e edges m)
  where
    has : (e : Edge) (es : List Edge) → In e es → HasEdge es e.0 e.1
    has e (d ∷ es) (inl k) = inl (ap (λ x. x.0) k, ap (λ x. x.1) k)
    has e (d ∷ es) (inr m) = inr (has e es m)
    has e [] m = absurd m

pub unseen-replicate : (n : ℕ) → unseen (replicate n false) ≡ n
unseen-replicate zero = refl
unseen-replicate (suc n) = omega (arith, unseen-replicate n)

holders-replicate : (x n : ℕ) → holders x (replicate n none) ≡ 0
holders-replicate x zero = refl
holders-replicate x (suc n) = omega (arith, holders-replicate x n)

Fits-replicate : (R : ℕ → ℕ → Type 0) (a n : ℕ) → Fits R a (replicate n none)
Fits-replicate R a zero = tt
Fits-replicate R a (suc n) = Fits-replicate R (suc a) n

-- The holders of the slots from `s` on, from those after the search for `s`.
holders-from :
    (s : ℕ) (found : Bool) (covered : List Bool) (ts ts1 final : List (Option ℕ))
    → ((x : ℕ) → holders x ts1 ≡ holders x ts + (if found then one_if (eqb s x) else 0))
    → ((x : ℕ) → x < suc s → holders x final ≡ holders x ts1)
    → ((i : ℕ)
        → holders (suc s + i) final ≡ holders (suc s + i) ts1 + one_if (get_or covered i false))
    → (i : ℕ)
    → holders (s + i) final ≡ holders (s + i) ts + one_if (get_or (found ∷ covered) i false)
holders-from s found covered ts ts1 final served before after zero =
    subst (λ x. holders x final ≡ holders x ts + one_if found) (omega arith)
      (before s (omega arith) ∙ ground (arith, served s))
holders-from s found covered ts ts1 final served before after (suc i) =
    subst (λ x. holders x final ≡ holders x ts + one_if (get_or covered i false)) (omega arith)
      (after i ∙ ground (arith, served (suc s + i)))

module _ (R : ℕ → ℕ → Type 0) (adj : List (List ℕ)) (slot_wpos : List ℕ) (n : ℕ)
    (adj_fit : (s : ℕ) → All (λ t. R t s) (get_or adj (get_or slot_wpos s 0) [])) where
  -- The loop from the slot `s` on ends; the slots before it keep their trucks.
  abbrev Covers : Option (List Bool × List (Option ℕ)) → ℕ → ℕ → List (Option ℕ) → Type 0
  Covers o s k ts =
      (covered : List Bool) × (final : List (Option ℕ)) × (o ≡ some (covered, final))
      × (length covered ≡ k)
      × (length final ≡ n)
      × Fits R 0 final
      × ((x : ℕ) → x < s → holders x final ≡ holders x ts)
      × ((i : ℕ) → holders (s + i) final ≡ holders (s + i) ts + one_if (get_or covered i false))

  cover_slots-Covers :
      (k s : ℕ) (ts : List (Option ℕ))
      → length ts ≡ n
      → Fits R 0 ts
      → Covers (cover_slots adj slot_wpos n s k ts) s k ts
  unfolding cover_slots
  cover_slots-Covers zero s ts m f = ([], ts, refl, refl, m, f, (λ x lt. refl), (λ i. omega arith))
  cover_slots-Covers (suc k) s ts m f =
      let st : Tries = record { truck_slot = ts; seen = replicate n false } in
      let (found, st1, e, step) =
        try_slot-Returns R adj slot_wpos adj_fit (suc n) s st (omega (arith, unseen-replicate n))
          (m ∙ sym (length-replicate n false)) in
      let (covered, final, e2, len, len2, f2, before, after) =
        cover_slots-Covers k (suc s) st1.truck_slot (step.same_trucks ∙ m) (step.fits f) in
      (
        found ∷ covered,
        final,
        rw (e, cover_slots) (rw (e2, cover_slots) refl),
        ap suc len,
        len2,
        f2,
        (λ x lt. before x (omega arith) ∙ ground (arith, step.served x)),
        holders-from s found covered ts st1.truck_slot final step.served before after,
      )

holders-start :
    (s b : ℕ) (ts final : List (Option ℕ))
    → holders (0 + s) final ≡ holders (0 + s) ts + b
    → holders s ts ≡ 0
    → holders s final ≡ b
holders-start s b ts final h k =
    let at_s : holders s final ≡ holders s ts + b =
      subst (λ x. holders x final ≡ holders x ts + b) (omega arith) h in
    omega (arith, at_s)

-- For any trucks, slots and edges the fuel suffices: there is an answer, one flag for each slot. With it
-- go the slots that the trucks hold in the end: each truck holds a slot that an edge joins it to, and
-- a slot is held by exactly one truck if it is covered, and by none if it is not.
pub deadline_cover-serves :
    (n_trucks : ℕ) (slot_wpos : List ℕ) (edges : List Edge)
    → (covered : List Bool) × (truck_slot : List (Option ℕ)) × (deadline_cover n_trucks slot_wpos
          edges
        ≡ some (covered, truck_slot))
      × (length covered ≡ length slot_wpos)
      × (length truck_slot ≡ n_trucks)
      × Fits (λ t s. HasEdge edges t (get_or slot_wpos s 0)) 0 truck_slot
      × ((s : ℕ) → holders s truck_slot ≡ one_if (get_or covered s false))
unfolding deadline_cover
deadline_cover-serves n_trucks slot_wpos edges =
    let n_w = work_count slot_wpos in
    let adj = add_edges n_trucks n_w edges (replicate n_w []) in
    let R = λ (t : ℕ) (s : ℕ). HasEdge edges t (get_or slot_wpos s 0) in
    let fit : AllFit (HasEdge edges) adj =
      add_edges-AllFit (HasEdge edges) n_trucks n_w edges (replicate n_w []) (edges-HasEdge edges)
        (λ w. subst (All (λ t. HasEdge edges t w)) (sym (get_or-replicate n_w w)) tt) in
    let (covered, final, e, len, len2, f, _, after) =
      cover_slots-Covers R adj slot_wpos n_trucks (λ s. fit (get_or slot_wpos s 0))
        (length slot_wpos) 0 (replicate n_trucks none) (length-replicate n_trucks none)
        (Fits-replicate R 0 n_trucks) in
    (
      covered,
      final,
      e,
      len,
      len2,
      f,
      (λ s.
          holders-start s (one_if (get_or covered s false)) (replicate n_trucks none) final
            (after s) (holders-replicate s n_trucks)),
    )
