-- ===== src/Dispatch/Assign/Weights.antt =====
-- Sums over the columns of a choice, and how many columns a choice can have.
use tt_aiops_platform.Prelude.{
  ℕ, zero, suc, ◌+◌, ◌≡◌, ◌≤◌, ◌<◌, ◌⊎◌, refl, ap, Bool, true, false, List, [], ◌∷◌, inl, inr,
  Bool-cases, eqb, ltb, if◌then◌else◌, length, copies, All, arith,
}

abbrev one_if : Bool → ℕ
one_if true = 1
one_if false = 0

-- A choice of different columns for the rows.
pub record IsChoice (n m : ℕ) (js : List ℕ) : Type 0 where
  pub one_each : length js ≡ n
  pub in_range : All (λ j. j < m) js
  pub different : (j : ℕ) → copies j js ≤ 1

module _ (w : ℕ → ℕ) where
  -- The weights of the columns `js`, and of the first `k` columns.
  abbrev pub picked : List ℕ → ℕ
  picked [] = 0
  picked (j ∷ js) = w j + picked js

  abbrev pub all_up_to : ℕ → ℕ
  all_up_to zero = 0
  all_up_to (suc k) = all_up_to k + w k

  -- The part of `js` that is below `k`.
  abbrev pub picked_below : ℕ → List ℕ → ℕ
  picked_below k [] = 0
  picked_below k (j ∷ js) = (if ltb j k then w j else 0) + picked_below k js

  -- The part of `js` that is `x`.
  abbrev picked_at : ℕ → List ℕ → ℕ
  picked_at x [] = 0
  picked_at x (j ∷ js) = (if eqb x j then w j else 0) + picked_at x js

  below-suc : (k : ℕ) (js : List ℕ) → picked_below (suc k) js ≡ picked_below k js + picked_at k js
  below-suc k [] = refl
  below-suc k (j ∷ js) = ground (arith, below-suc k js)

  below-zero : (js : List ℕ) → picked_below 0 js ≡ 0
  below-zero [] = refl
  below-zero (j ∷ js) = ground (arith, below-zero js)

  pub below-all : (m : ℕ) (js : List ℕ) → All (λ j. j < m) js → picked_below m js ≡ picked js
  below-all m [] h = refl
  below-all m (j ∷ js) h = ground (arith, below-all m js h.1)

  at-none : (x : ℕ) (js : List ℕ) → copies x js ≡ 0 → picked_at x js ≡ 0
  at-none x [] h = refl
  at-none x (j ∷ js) h = ground (arith, at-none x js)

  at-once : (x : ℕ) (js : List ℕ) → copies x js ≡ 1 → picked_at x js ≡ w x
  at-once x [] h = absurd (omega arith)
  at-once x (j ∷ js) h = elim (Bool-cases (eqb x j)) [
    | inl e ↦ let same : x ≡ j = ground arith in ground (arith, at-none x js, ap w same)
    | inr e ↦ ground (arith, at-once x js)
  ]

  pub below-le :
      (k : ℕ) (js : List ℕ) → ((j : ℕ) → copies j js ≤ 1) → picked_below k js ≤ all_up_to k
  below-le zero js once = omega (arith, below-zero js)
  below-le (suc k) js once =
      ground (arith, below-suc k js, below-le k js once, once k, at-none k js, at-once k js)

  pub le-below :
      (k : ℕ) (js : List ℕ)
      → ((j : ℕ) → copies j js ≤ 1)
      → ((j : ℕ) → j < k → (w j ≡ 0) ⊎ (1 ≤ copies j js))
      → all_up_to k ≤ picked_below k js
  le-below zero js once covers = omega arith
  le-below (suc k) js once covers = ground (
    arith,
    below-suc k js,
    le-below k js once (λ j lt. covers j (omega arith)),
    once k,
    at-once k js,
    covers k (omega arith),
  )

-- A choice has at most as many rows as there are columns.
pub IsChoice-le : (n m : ℕ) (js : List ℕ) → IsChoice n m js → n ≤ m
IsChoice-le n m js h = omega (
  arith,
  below-le (λ x. 1) m js h.different,
  below-all (λ x. 1) m js h.in_range,
  ones js,
  ones_up_to m,
  h.one_each,
)
  where
    ones : (js : List ℕ) → picked (λ x. 1) js ≡ length js
    ones [] = refl
    ones (j ∷ js) = omega (arith, ones js)

    ones_up_to : (k : ℕ) → all_up_to (λ x. 1) k ≡ k
    ones_up_to zero = refl
    ones_up_to (suc k) = omega (arith, ones_up_to k)

-- With no more columns than rows every column is chosen.
pub IsChoice-all :
    (n m : ℕ) (js : List ℕ) → IsChoice n m js → m ≤ n → (x : ℕ) → x < m → 1 ≤ copies x js
IsChoice-all n m js h le x lt = elim (Bool-cases (eqb (copies x js) 0)) [
  | inl e ↦ absurd (
      omega (
        arith,
        below-le but_x m js h.different,
        below-all but_x m js h.in_range,
        others js (ground arith),
        up_to m,
        h.one_each,
        passed m lt,
      ))
  | inr e ↦ ground arith
]
  where
    but_x : ℕ → ℕ
    but_x y = if eqb x y then 0 else 1

    others : (js : List ℕ) → copies x js ≡ 0 → picked but_x js ≡ length js
    others [] none = refl
    others (j ∷ js) none = ground (arith, others js)

    up_to : (k : ℕ) → all_up_to but_x k + one_if (ltb x k) ≡ k
    up_to zero = ground arith
    up_to (suc k) = ground (arith, up_to k)

    passed : (k : ℕ) → x < k → one_if (ltb x k) ≡ 1
    passed k lt = ground arith
