-- ===== src/TosAvail/Replay/Commits.antt =====
-- The commits that a replay applies: the groups of the changes, and the changes that it leaves out.
use tt_aiops_platform.Prelude.{
  ℕ, ◌+◌, ◌≡◌, ◌<◌, refl, sym, ap, ◌∙◌, List, [], ◌∷◌, ◌++◌, max, arith, inl, inr, Bool-cases,
  if◌then◌else◌, ltb, eqb, select, length, length-append, All, All-imp,
}
use tt_aiops_platform.TosAvail.Txn.{Change}
use tt_aiops_platform.TosAvail.Replay.{
  Anchor, Snapshot, push_txn, group_txns, count_events, max_scn, replay,
}

-- The changes of the commit `n`, none if there is no such group.
abbrev pub commit : ℕ → List (ℕ × List Change) → List Change
commit n [] = []
commit n ((m, evs) ∷ txns) = let rest = commit n txns in if eqb m n then evs else rest

-- The numbers go up strictly, and no group is empty.
abbrev pub IsGrouped : List (ℕ × List Change) → Type 0
IsGrouped [] = Unit
IsGrouped ((n, evs) ∷ txns) = All (λ t. n < t.0) txns × (0 < length evs) × IsGrouped txns

commit-absent :
    (n : ℕ) (txns : List (ℕ × List Change)) → All (λ t. n < t.0) txns → commit n txns ≡ []
commit-absent n [] h = refl
commit-absent n ((m, evs) ∷ txns) h = ground (arith, commit-absent n txns h.1, h.0)

above :
    (n m : ℕ) (txns : List (ℕ × List Change))
    → n < m
    → All (λ t. m < t.0) txns
    → All (λ t. n < t.0) txns
above n m txns lt h = All-imp (λ t k. omega arith) txns h

All-push_txn :
    (n : ℕ) (c : Change) (txns : List (ℕ × List Change))
    → n < c.scn
    → All (λ t. n < t.0) txns
    → All (λ t. n < t.0) (push_txn c txns)
unfolding push_txn
All-push_txn n c [] lt h = (lt, tt)
All-push_txn n c ((m, evs) ∷ txns) lt h = ground (arith, All-push_txn n c txns lt h.1)

push_txn-IsGrouped :
    (c : Change) (txns : List (ℕ × List Change)) → IsGrouped txns → IsGrouped (push_txn c txns)
unfolding push_txn
push_txn-IsGrouped c [] h = (tt, omega arith, tt)
push_txn-IsGrouped c ((m, evs) ∷ txns) h = elim (Bool-cases (eqb c.scn m)) [
  | inl e ↦ rw e (h.0, omega (arith, length-append evs (c ∷ [])), h.2)
  | inr e ↦ rw e (elim (Bool-cases (ltb c.scn m)) [
    | inl l ↦ rw l ((ground arith, above c.scn m txns (ground arith) h.0), omega arith, h)
    | inr l ↦ rw l (All-push_txn m c txns (ground arith) h.0, h.1, push_txn-IsGrouped c txns h.2)
  ])
]

commit-push_txn :
    (n : ℕ) (c : Change) (txns : List (ℕ × List Change))
    → IsGrouped txns
    → commit n (push_txn c txns) ≡ (if eqb c.scn n then commit n txns ++ c ∷ [] else commit n txns)
unfolding push_txn
commit-push_txn n c [] h = ground arith
commit-push_txn n c ((m, evs) ∷ txns) h = elim (Bool-cases (eqb c.scn m)) [
  | inl e ↦ rw e (ground (arith, commit-push_txn n c txns h.2))
  | inr e ↦ rw e (elim (Bool-cases (ltb c.scn m)) [
    | inl l ↦
        rw l (ground (arith, commit-absent c.scn txns (above c.scn m txns (ground arith) h.0)))
    | inr l ↦ rw l (ground (arith, commit-push_txn n c txns h.2))
  ])
]

count-push_txn :
    (c : Change) (txns : List (ℕ × List Change))
    → count_events (push_txn c txns) ≡ count_events txns + 1
unfolding push_txn count_events
count-push_txn c [] = refl
count-push_txn c ((m, evs) ∷ txns) =
    ground (arith, count-push_txn c txns, length-append evs (c ∷ []))

group_txns-IsGrouped :
    (cs : List Change) (txns : List (ℕ × List Change))
    → IsGrouped txns
    → IsGrouped (group_txns cs txns)
unfolding group_txns
group_txns-IsGrouped [] txns h = h
group_txns-IsGrouped (c ∷ cs) txns h =
    group_txns-IsGrouped cs (push_txn c txns) (push_txn-IsGrouped c txns h)

append_assoc : (xs ys zs : List Change) → (xs ++ ys) ++ zs ≡ xs ++ (ys ++ zs)
append_assoc [] ys zs = refl
append_assoc (x ∷ xs) ys zs = ap (λ l. x ∷ l) (append_assoc xs ys zs)

append_nil : (xs : List Change) → xs ++ [] ≡ xs
append_nil [] = refl
append_nil (x ∷ xs) = ap (λ l. x ∷ l) (append_nil xs)

commit-group_txns :
    (n : ℕ) (cs : List Change) (txns : List (ℕ × List Change))
    → IsGrouped txns
    → commit n (group_txns cs txns) ≡ commit n txns ++ select (λ c. eqb c.scn n) cs
unfolding group_txns
commit-group_txns n [] txns h = sym (append_nil (commit n txns))
commit-group_txns n (c ∷ cs) txns h =
    commit-group_txns n cs (push_txn c txns) (push_txn-IsGrouped c txns h)
    ∙ elim (Bool-cases (eqb c.scn n)) [
      | inl e ↦
          rw (commit-push_txn n c txns h)
            (rw e (append_assoc (commit n txns) (c ∷ []) (select (λ d. eqb d.scn n) cs)))
      | inr e ↦ rw (commit-push_txn n c txns h) (rw e refl)
    ]

count-group_txns :
    (cs : List Change) (txns : List (ℕ × List Change))
    → count_events (group_txns cs txns) ≡ count_events txns + length cs
unfolding group_txns
count-group_txns [] txns = omega arith
count-group_txns (c ∷ cs) txns =
    omega (arith, count-group_txns cs (push_txn c txns), count-push_txn c txns)

-- The groups of any changes have strictly ascending numbers, none is empty, the group of any
-- number `n` holds the changes with that number in the order of the changes, and the groups hold as many
-- changes as there are.
pub group_txns_lem :
    (cs : List Change) (n : ℕ)
    → IsGrouped (group_txns cs [])
      × (commit n (group_txns cs []) ≡ select (λ c. eqb c.scn n) cs)
      × (count_events (group_txns cs []) ≡ length cs)
unfolding count_events
group_txns_lem cs n = (
  group_txns-IsGrouped cs [] tt,
  commit-group_txns n cs [] tt,
  omega (arith, count-group_txns cs []),
)

select-select :
    (k : ℕ) (cs : List Change)
    → select (λ c. ltb k c.scn) (select (λ c. ltb k c.scn) cs) ≡ select (λ c. ltb k c.scn) cs
select-select k [] = refl
select-select k (c ∷ cs) = elim (Bool-cases (ltb k c.scn)) [
  | inl e ↦ rw e (rw e (ap (λ l. c ∷ l) (select-select k cs)))
  | inr e ↦ rw e (select-select k cs)
]

max_scn-select :
    (k : ℕ) (cs : List Change) → max (max_scn (select (λ c. ltb k c.scn) cs)) k ≡ max (max_scn cs) k
unfolding max_scn
max_scn-select k [] = refl
max_scn-select k (c ∷ cs) = elim (Bool-cases (ltb k c.scn)) [
  | inl e ↦ rw e (ground (arith, max_scn-select k cs))
  | inr e ↦ rw e (ground (arith, max_scn-select k cs))
]

-- The changes that the anchor has seen already, by their commit numbers, have no effect on the
-- replay: without them it returns the same.
pub replay-seen :
    (anchor : Anchor) (changes : List Change) (snap : Snapshot)
    → replay anchor (select (λ c. ltb anchor.scn c.scn) changes) snap ≡ replay anchor changes snap
unfolding replay
replay-seen anchor changes snap =
    rw (select-select anchor.scn changes, max_scn-select anchor.scn changes) refl
