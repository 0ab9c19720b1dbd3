-- ===== src/Prelude/Sorting.antt =====
-- A stable sort by a Boolean order: `sort`, `sort_by`, `sort_by_key`.
use mathlib.Core.Path.{◌≡◌}
use mathlib.Core.Bool.{Bool, true, false}
use mathlib.Core.List.{List, [], ◌∷◌, Perm}
use mathlib.Core.List.Perm
use mathlib.Core.Logic.{inl, inr}
use tt_aiops_platform.Prelude.Tests.{if◌then◌else◌, Bool-cases}
use tt_aiops_platform.Prelude.Lists.{All, All-imp, In, All-In, All-of-In}

module _ {ℓ} {A : Type ℓ} where
  -- `x` goes before the first element that it does not exceed, so equal elements keep their order.
  unfoldable pub insert_by : (A → A → Bool) → A → List A → List A
  insert_by le x [] = x ∷ []
  insert_by le x (y ∷ ys) = let rest = insert_by le x ys in if le x y then x ∷ y ∷ ys else y ∷ rest

  unfoldable pub sort_by : (A → A → Bool) → List A → List A
  unfolding insert_by
  sort_by le [] = []
  sort_by le (x ∷ xs) = insert_by le x (sort_by le xs)

  -- Each element is at most every later one.
  abbrev pub IsSortedBy : (A → A → Bool) → List A → Type 0
  IsSortedBy le [] = Unit
  IsSortedBy le (x ∷ xs) = All (λ y. le x y ≡ true) xs × IsSortedBy le xs

  All-insert_by {κ} :
      (P : A → Type κ) (le : A → A → Bool) (x : A) (ys : List A)
      → P x
      → All P ys
      → All P (insert_by le x ys)
  unfolding insert_by
  All-insert_by P le x [] p h = (p, tt)
  All-insert_by P le x (y ∷ ys) p h = elim (Bool-cases (le x y)) [
    | inl e ↦ rw e (p, h)
    | inr e ↦ rw e (h.0, All-insert_by P le x ys p h.1)
  ]

  pub All-sort_by {κ} :
      (P : A → Type κ) (le : A → A → Bool) (xs : List A) → All P xs → All P (sort_by le xs)
  unfolding sort_by
  All-sort_by P le [] h = tt
  All-sort_by P le (x ∷ xs) h = All-insert_by P le x (sort_by le xs) h.0 (All-sort_by P le xs h.1)

  All-of-insert_by {κ} :
      (P : A → Type κ) (le : A → A → Bool) (x : A) (ys : List A)
      → All P (insert_by le x ys)
      → P x × All P ys
  unfolding insert_by
  All-of-insert_by P le x [] h = h
  All-of-insert_by P le x (y ∷ ys) h = elim (Bool-cases (le x y)) [
    | inl e ↦ rw (e, insert_by) at h
    | inr e ↦
        let rest = All-of-insert_by P le x ys (rw (e, insert_by) at h).1 in
        (rest.0, ((rw (e, insert_by) at h).0, rest.1))
  ]

  All-of-sort_by {κ} :
      (P : A → Type κ) (le : A → A → Bool) (xs : List A) → All P (sort_by le xs) → All P xs
  unfolding sort_by
  All-of-sort_by P le [] h = tt
  All-of-sort_by P le (x ∷ xs) h =
      let parts = All-of-insert_by P le x (sort_by le xs) h in
      (parts.0, All-of-sort_by P le xs parts.1)

  insert_by-perm : (le : A → A → Bool) (x : A) (ys : List A) → Perm (insert_by le x ys) (x ∷ ys)
  unfolding insert_by
  insert_by-perm le x [] = Perm.refl (x ∷ [])
  insert_by-perm le x (y ∷ ys) = elim (Bool-cases (le x y)) [
    | inl e ↦ rw e (Perm.refl (x ∷ y ∷ ys))
    | inr e ↦ rw e (Perm.trans (Perm.cons y (insert_by-perm le x ys)) (Perm.swap x y ys))
  ]

  pub sort_by-perm : (le : A → A → Bool) (xs : List A) → Perm (sort_by le xs) xs
  unfolding sort_by
  sort_by-perm le [] = Perm.refl []
  sort_by-perm le (x ∷ xs) =
      Perm.trans (insert_by-perm le x (sort_by le xs)) (Perm.cons x (sort_by-perm le xs))

-- Over a total and transitive order the result is sorted.
module _ {ℓ} {A : Type ℓ} (le : A → A → Bool)
    (le_total : (a b : A) → le a b ≡ false → le b a ≡ true)
    (le_trans : (a b c : A) → le a b ≡ true → le b c ≡ true → le a c ≡ true) where
  insert_by-IsSortedBy :
      (x : A) (ys : List A) → IsSortedBy le ys → IsSortedBy le (insert_by le x ys)
  unfolding insert_by
  insert_by-IsSortedBy x [] h = (tt, tt)
  insert_by-IsSortedBy x (y ∷ ys) h = elim (Bool-cases (le x y)) [
    | inl e ↦ rw e ((e, All-imp (λ z k. le_trans x y z e k) ys h.0), h)
    | inr e ↦ rw e (
      All-insert_by (λ z. le y z ≡ true) le x ys (le_total x y e) h.0,
      insert_by-IsSortedBy x ys h.1,
    )
  ]

  pub sort_by-IsSortedBy : (xs : List A) → IsSortedBy le (sort_by le xs)
  unfolding sort_by
  sort_by-IsSortedBy [] = tt
  sort_by-IsSortedBy (x ∷ xs) = insert_by-IsSortedBy x (sort_by le xs) (sort_by-IsSortedBy xs)

pub In-sort_by :
    {A : Type 0} (le : A → A → Bool) (xs : List A) (x : A) → In x xs → In x (sort_by le xs)
In-sort_by le xs x m =
    All-In (λ y. In y (sort_by le xs)) xs x
      (All-of-sort_by (λ y. In y (sort_by le xs)) le xs (All-of-In _ (sort_by le xs) (λ y k. k))) m

pub In-of-sort_by :
    {A : Type 0} (le : A → A → Bool) (xs : List A) (x : A) → In x (sort_by le xs) → In x xs
In-of-sort_by le xs x m =
    All-In (λ y. In y xs) (sort_by le xs) x
      (All-sort_by (λ y. In y xs) le xs (All-of-In _ xs (λ y k. k))) m
