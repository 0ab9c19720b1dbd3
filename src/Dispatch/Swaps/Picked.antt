-- ===== src/Dispatch/Swaps/Picked.antt =====
-- What `pick_swaps` returns: swaps that are allowed, of different trucks, chosen by gain.
use tt_aiops_platform.Prelude.{
  ℕ, suc, zero, ◌≡◌, ◌≢◌, ◌<◌, refl, sym, ◌∙◌, ap, subst, ◌⊎◌, Bool, true, false, ◌||◌, Option,
  List, [], ◌∷◌, inl, inr, Bool-cases, if◌then◌else◌, arith, length, length-set, get_or, set,
  replicate, length-replicate, All, All-imp, All-In, In, eqb,
}
use tt_aiops_platform.Prelude.Sorting.{
  sort_by, sort_by-IsSortedBy, IsSortedBy, All-sort_by, In-sort_by,
}
use tt_aiops_platform.Prelude.Int.{ℤ, ◌≤ℤ◌}
use tt_aiops_platform.Dispatch.Swaps.{Swap, candidates, swap_le, pick, pick_swaps}
use tt_aiops_platform.Dispatch.Swaps.Candidates.{IsGood, candidates-IsGood, In-candidates}

-- The two swaps have no truck in common.
abbrev pub AreApart : Swap → Swap → Type 0
AreApart s t = (s.i ≢ t.i) × (s.i ≢ t.j) × (s.j ≢ t.i) × (s.j ≢ t.j)

abbrev pub AllApart : List Swap → Type 0
AllApart [] = Unit
AllApart (s ∷ ss) = All (AreApart s) ss × AllApart ss

-- The two swaps have a truck in common.
abbrev pub AreTouching : Swap → Swap → Type 0
AreTouching s t = (s.i ≡ t.i) ⊎ (s.i ≡ t.j) ⊎ (s.j ≡ t.i) ⊎ (s.j ≡ t.j)

-- One of the swaps has a truck of `c` and gains no less.
abbrev pub IsBeaten : Swap → List Swap → Type 0
IsBeaten c [] = ⊥
IsBeaten c (s ∷ ss) = (AreTouching s c × (c.gain ≤ℤ s.gain)) ⊎ IsBeaten c ss

get_or-set :
    (xs : List Bool) (i j : ℕ)
    → i < length xs
    → get_or (set xs i true) j false ≡ (if eqb i j then true else get_or xs j false)
get_or-set [] i j h = absurd (omega arith)
get_or-set (x ∷ xs) zero zero h = refl
get_or-set (x ∷ xs) zero (suc j) h = ground arith
get_or-set (x ∷ xs) (suc i) zero h = ground arith
get_or-set (x ∷ xs) (suc i) (suc j) h = ground (arith, get_or-set xs i j)

abbrev is_used : List Bool → Swap → Bool
is_used used c = get_or used c.i false || get_or used c.j false

abbrev mark : List Bool → Swap → List Bool
mark used c = set (set used c.i true) c.j true

get_or-mark :
    (used : List Bool) (c : Swap) (k : ℕ)
    → c.i < c.j
    → c.j < length used
    → get_or (mark used c) k false
      ≡ (if eqb c.j k then true else if eqb c.i k then true else get_or used k false)
get_or-mark used c k lt le = ground (
  arith,
  get_or-set (set used c.i true) c.j k (omega (arith, length-set used c.i true)),
  get_or-set used c.i k (omega arith),
)

length-mark : (used : List Bool) (c : Swap) → length (mark used c) ≡ length used
length-mark used c =
    omega (arith, length-set (set used c.i true) c.j true, length-set used c.i true)

All-zip :
    {A : Type 0} (P Q R : A → Type 0)
    → ((x : A) → P x → Q x → R x)
    → (xs : List A) → All P xs
    → All Q xs
    → All R xs
All-zip P Q R f [] h k = tt
All-zip P Q R f (x ∷ xs) h k = (f x h.0 k.0, All-zip P Q R f xs h.1 k.1)

swap_le_gain : (a b : Swap) → swap_le a b ≡ true → b.gain ≤ℤ a.gain
unfolding swap_le
swap_le_gain a b h = ground arith

swap_le_total : (a b : Swap) → swap_le a b ≡ false → swap_le b a ≡ true
unfolding swap_le
swap_le_total a b h = ground arith

swap_le_trans : (a b c : Swap) → swap_le a b ≡ true → swap_le b c ≡ true → swap_le a c ≡ true
unfolding swap_le
swap_le_trans a b c h k = ground arith

module _ (n : ℕ) where
  abbrev InRange : Swap → Type 0
  InRange s = (s.i < s.j) × (s.j < n)

  pick-All :
      (P : Swap → Type 0) (used : List Bool) (cs : List Swap) → All P cs → All P (pick used cs)
  unfolding pick
  pick-All P used [] h = tt
  pick-All P used (c ∷ cs) h = elim (Bool-cases (is_used used c)) [
    | inl e ↦ rw e (pick-All P used cs h.1)
    | inr e ↦ rw e (h.0, pick-All P (mark used c) cs h.1)
  ]

  pick-unused :
      (k : ℕ) (used : List Bool) (cs : List Swap)
      → length used ≡ n
      → All InRange cs
      → get_or used k false ≡ true
      → All (λ s. (s.i ≢ k) × (s.j ≢ k)) (pick used cs)
  unfolding pick
  pick-unused k used [] m h u = tt
  pick-unused k used (c ∷ cs) m h u = elim (Bool-cases (is_used used c)) [
    | inl e ↦ rw e (pick-unused k used cs m h.1 u)
    | inr e ↦ rw e (
      ((λ q. ground arith), (λ q. ground arith)),
      pick-unused k (mark used c) cs (length-mark used c ∙ m) h.1
          (ground (arith, get_or-mark used c k h.0.0 (omega arith))),
    )
  ]

  pick-AllApart :
      (used : List Bool) (cs : List Swap)
      → length used ≡ n
      → All InRange cs
      → AllApart (pick used cs)
  unfolding pick
  pick-AllApart used [] m h = tt
  pick-AllApart used (c ∷ cs) m h = elim (Bool-cases (is_used used c)) [
    | inl e ↦ rw e (pick-AllApart used cs m h.1)
    | inr e ↦
        let used' = mark used c in
        let m' : length used' ≡ n = length-mark used c ∙ m in
        let le : c.j < length used = omega (arith, h.0.1) in
        rw e (
          All-zip _ _ (AreApart c)
              (λ s a b.
                ((λ q. a.0 (sym q)), (λ q. a.1 (sym q)), (λ q. b.0 (sym q)), (λ q. b.1 (sym q))))
              (pick used' cs)
              (pick-unused c.i used' cs m' h.1 (ground (arith, get_or-mark used c c.i h.0.0 le)))
              (pick-unused c.j used' cs m' h.1 (ground (arith, get_or-mark used c c.j h.0.0 le))),
          pick-AllApart used' cs m' h.1,
        )
  ]

  pick-IsBeaten :
      (c : Swap) (used : List Bool) (cs : List Swap)
      → length used ≡ n
      → All InRange cs
      → IsSortedBy swap_le cs
      → In c cs
      → (is_used used c ≡ true) ⊎ IsBeaten c (pick used cs)
  unfolding pick
  pick-IsBeaten c used [] m h s k = absurd k
  pick-IsBeaten c used (d ∷ ds) m h s k = elim (Bool-cases (is_used used d)) [
    | inl e ↦ elim k [
      | inl same ↦ inl (subst (λ x. is_used used x ≡ true) same e)
      | inr in_ds ↦ rw e (pick-IsBeaten c used ds m h.1 s.1 in_ds)
    ]
    | inr e ↦ rw e (elim k [
      | inl same ↦
          inr
            (inl (inl (ap (λ x. x.i) same), subst (λ x. c.gain ≤ℤ x.gain) (sym same) (omega arith)))
      | inr in_ds ↦
          let le : c.gain ≤ℤ d.gain =
            swap_le_gain d c (All-In (λ x. swap_le d x ≡ true) ds c s.0 in_ds) in
          elim (pick-IsBeaten c (mark used d) ds (length-mark used d ∙ m) h.1 s.1 in_ds) [
            | inl u ↦ ground (
              arith,
              get_or-mark used d c.i h.0.0 (omega (arith, h.0.1)),
              get_or-mark used d c.j h.0.0 (omega (arith, h.0.1)),
            )
            | inr b ↦ inr (inr b)
          ]
    ])
  ]

module _ (own : List ℤ) (cross : ℕ → ℕ → Option ℤ) (min_gain : ℤ) where
  abbrev sorted : List Swap
  sorted = sort_by swap_le (candidates own cross min_gain)

  sorted-IsGood : All (IsGood own cross min_gain) sorted
  sorted-IsGood =
      All-sort_by (IsGood own cross min_gain) swap_le (candidates own cross min_gain)
        (candidates-IsGood own cross min_gain)

  sorted-InRange : All (InRange (length own)) sorted
  sorted-InRange = All-imp (λ s g. (g.0, g.1)) sorted sorted-IsGood

  -- Every swap that is picked is one of two trucks, allowed both ways, with the gain that the drives
  -- give and at least `min_gain`; and no truck is in two of them.
  pub pick_swaps-IsGood :
      All (IsGood own cross min_gain) (pick_swaps own cross min_gain)
      × AllApart (pick_swaps own cross min_gain)
  unfolding pick_swaps
  pick_swaps-IsGood = (
    pick-All (length own) (IsGood own cross min_gain) (replicate (length own) false) sorted
        sorted-IsGood,
    pick-AllApart (length own) (replicate (length own) false) sorted
        (length-replicate (length own) false) sorted-InRange,
  )

  none_used : (n k : ℕ) → get_or (replicate n false) k false ≡ false
  none_used zero k = refl
  none_used (suc n) zero = refl
  none_used (suc n) (suc k) = none_used n k

  -- A swap that is allowed and gains at least `min_gain` is picked, or shares a truck with a picked
  -- one that gains no less.
  pub pick_swaps-IsBeaten :
      (c : Swap) → IsGood own cross min_gain c → IsBeaten c (pick_swaps own cross min_gain)
  unfolding pick_swaps
  pick_swaps-IsBeaten c g =
      elim (pick-IsBeaten (length own) c (replicate (length own) false) sorted
        (length-replicate (length own) false) sorted-InRange
        (sort_by-IsSortedBy swap_le swap_le_total swap_le_trans (candidates own cross min_gain))
        (In-sort_by swap_le (candidates own cross min_gain) c
          (In-candidates own cross min_gain c g))) [
            | inl u ↦
                absurd (ground (arith, none_used (length own) c.i, none_used (length own) c.j))
            | inr b ↦ b
          ]
