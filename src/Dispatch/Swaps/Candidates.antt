-- ===== src/Dispatch/Swaps/Candidates.antt =====
-- Which swaps `pick_swaps` considers: every pair of trucks that may swap and gain enough.
use tt_aiops_platform.Prelude.{
  ℕ, suc, zero, ◌+◌, ◌-◌, ◌≡◌, ◌≤◌, ◌<◌, refl, sym, ap, subst, true, Option, some, List, [], ◌∷◌,
  ◌++◌, inl, inr, Bool-cases, Option-cases, arith, length, get_or, All, All-append, In, eqb, range,
}
use tt_aiops_platform.Prelude.Int.{ℤ, pos, ◌+ℤ◌, ◌-ℤ◌, ◌≤ℤ◌, leb_ℤ}
use tt_aiops_platform.Dispatch.Swaps.{Swap, collect, candidate, candidates}

-- The swap is one of two trucks `i < j`, both directions are allowed, and its gain is at least
-- `min_gain`.
abbrev pub IsGood : List ℤ → (ℕ → ℕ → Option ℤ) → ℤ → Swap → Type 0
IsGood own cross min_gain s =
    (s.i < s.j)
    × (s.j < length own)
    × (cross s.i s.j ≡ some s.ij)
    × (cross s.j s.i ≡ some s.ji)
    × (s.gain ≡ get_or own s.i (pos 0) +ℤ get_or own s.j (pos 0) -ℤ s.ij -ℤ s.ji)
    × (min_gain ≤ℤ s.gain)

All-collect :
    {A B : Type 0} (P : B → Type 0) (f : A → List B) (xs : List A)
    → All (λ x. All P (f x)) xs
    → All P (collect f xs)
All-collect P f [] h = tt
All-collect P f (x ∷ xs) h = All-append P (f x) (collect f xs) h.0 (All-collect P f xs h.1)

All-range : (P : ℕ → Type 0) (a k : ℕ) → ((x : ℕ) → a ≤ x → x < a + k → P x) → All P (range a k)
All-range P a zero h = tt
All-range P a (suc k) h = (
  h a (omega arith) (omega arith),
  All-range P (suc a) k (λ x l r. h x (omega arith) (omega arith)),
)

In-append_left : {A : Type 0} (x : A) (xs ys : List A) → In x xs → In x (xs ++ ys)
In-append_left x (y ∷ xs) ys (inl e) = inl e
In-append_left x (y ∷ xs) ys (inr m) = inr (In-append_left x xs ys m)
In-append_left x [] ys m = absurd m

In-append_right : {A : Type 0} (x : A) (xs ys : List A) → In x ys → In x (xs ++ ys)
In-append_right x [] ys m = m
In-append_right x (y ∷ xs) ys m = inr (In-append_right x xs ys m)

In-collect :
    {A B : Type 0} (f : A → List B) (x : A) (y : B) (xs : List A)
    → In x xs
    → In y (f x)
    → In y (collect f xs)
In-collect f x y (z ∷ xs) (inl e) m =
    In-append_left y (f z) (collect f xs) (subst (λ v. In y (f v)) (sym e) m)
In-collect f x y (z ∷ xs) (inr k) m =
    In-append_right y (f z) (collect f xs) (In-collect f x y xs k m)
In-collect f x y [] k m = absurd k

In-range : (a k x : ℕ) → a ≤ x → x < a + k → In x (range a k)
In-range a zero x l r = absurd (omega arith)
In-range a (suc k) x l r = elim (Bool-cases (eqb a x)) [
  | inl e ↦ inl (ground arith)
  | inr e ↦ inr (In-range (suc a) k x (ground arith) (omega arith))
]

module _ (own : List ℤ) (cross : ℕ → ℕ → Option ℤ) (min_gain : ℤ) where
  candidate-IsGood :
      (i j : ℕ)
      → i < j
      → j < length own
      → All (IsGood own cross min_gain) (candidate own cross min_gain i j)
  unfolding candidate
  candidate-IsGood i j lt le = elim (Option-cases (cross i j)) [
    | inl e ↦ rw (e, candidate) tt
    | inr (ij, e) ↦
        rw (e, candidate)
          (elim (Option-cases (cross j i)) [
            | inl k ↦ rw (k, candidate) tt
            | inr (ji, k) ↦
                rw (k, candidate)
                  (let gain = get_or own i (pos 0) +ℤ get_or own j (pos 0) -ℤ ij -ℤ ji in
                    elim (Bool-cases (leb_ℤ min_gain gain)) [
                      | inl g ↦ rw (g, candidate) ((lt, le, e, k, refl, ground arith), tt)
                      | inr g ↦ rw (g, candidate) tt
                    ])
          ])
  ]

  pub candidates-IsGood : All (IsGood own cross min_gain) (candidates own cross min_gain)
  unfolding candidates
  candidates-IsGood = All-collect (IsGood own cross min_gain) _ (range 0 (length own)) (
      All-range _ 0 (length own) (λ i _ li.
        All-collect (IsGood own cross min_gain) (candidate own cross min_gain i)
          (range (suc i) (length own - suc i))
          (All-range _ (suc i) (length own - suc i)
            (λ j lj rj. candidate-IsGood i j (omega arith) (omega arith)))))

  In-candidate :
      (s : Swap) → IsGood own cross min_gain s → In s (candidate own cross min_gain s.i s.j)
  unfolding candidate
  In-candidate s (lt, le, to, back, gain, enough) =
      let big : leb_ℤ min_gain s.gain ≡ true = ground arith in
      rw (to, back, subst (λ g. leb_ℤ min_gain g ≡ true) gain big, candidate, In)
        (inl (ap (λ g. record { i = s.i; j = s.j; ij = s.ij; ji = s.ji; gain = g }) (sym gain)))

  pub In-candidates :
      (s : Swap) → IsGood own cross min_gain s → In s (candidates own cross min_gain)
  unfolding candidates
  In-candidates s h =
      In-collect _ s.i s (range 0 (length own))
        (In-range 0 (length own) s.i (omega arith) (omega (arith, h.0, h.1)))
        (In-collect (candidate own cross min_gain s.i) s.j s
          (range (suc s.i) (length own - suc s.i))
          (In-range (suc s.i) (length own - suc s.i) s.j (omega (arith, h.0))
            (omega (arith, h.0, h.1)))
          (In-candidate s h))
