-- ===== src/Dispatch/Shuffle/Kept.antt =====
-- A shuffle keeps the elements.
use tt_aiops_platform.Prelude.{
  ℕ, zero, suc, ◌+◌, ◌-◌, ◌%◌, ◌≡◌, refl, ◌∙◌, Bool, true, false, some, List, [], ◌∷◌, length,
  get_elem?, set, select, arith, Bool-cases, Option-cases, inl, inr,
}
use tt_aiops_platform.Dispatch.Shuffle.{xorshift, swap_at, shuffle_from, shuffle}

abbrev passes : Bool → ℕ
passes true = 1
passes false = 0

module _ {A : Type 0} (p : A → Bool) where
  count : List A → ℕ
  count v = length (select p v)

  count-cons : (x : A) (xs : List A) → count (x ∷ xs) ≡ passes (p x) + count xs
  unfolding count
  count-cons x xs = elim (Bool-cases (p x)) [
    | inl e ↦ rw e (omega arith)
    | inr e ↦ rw e (omega arith)
  ]

  count-set :
      (v : List A) (i : ℕ) (a b : A)
      → get_elem? v i ≡ some a
      → count (set v i b) + passes (p a) ≡ count v + passes (p b)
  count-set [] i a b h = absurd (cc)
  count-set (x ∷ xs) zero a b h = ground (arith, count-cons b xs, count-cons x xs)
  count-set (x ∷ xs) (suc i) a b h =
      omega (arith, count-cons x (set xs i b), count-cons x xs, count-set xs i a b h)

  -- After the first write the place `j` holds what it held, whether or not it is the place written.
  get-set_either :
      (v : List A) (i j : ℕ) (a b : A)
      → get_elem? v i ≡ some a
      → get_elem? v j ≡ some b
      → get_elem? (set v i b) j ≡ some b
  get-set_either [] i j a b h k = absurd (cc)
  get-set_either (x ∷ xs) zero zero a b h k = refl
  get-set_either (x ∷ xs) zero (suc j) a b h k = k
  get-set_either (x ∷ xs) (suc i) zero a b h k = k
  get-set_either (x ∷ xs) (suc i) (suc j) a b h k = get-set_either xs i j a b h k

  count-swap_at : (v : List A) (i j : ℕ) → count (swap_at v i j) ≡ count v
  unfolding swap_at
  count-swap_at v i j = elim (Option-cases (get_elem? v i)) [
    | inl e ↦ rw (e, swap_at) refl
    | inr (a, e) ↦
        rw (e, swap_at)
          (elim (Option-cases (get_elem? v j)) [
            | inl k ↦ rw (k, swap_at) refl
            | inr (b, k) ↦
                rw (k, swap_at)
                  (omega (
                    arith,
                    count-set v i a b e,
                    count-set (set v i b) j b a (get-set_either v i j a b e k),
                  ))
          ])
  ]

  count-shuffle_from : (i : ℕ) (v : List A) (rng : ℕ) → count (shuffle_from i v rng).0 ≡ count v
  unfolding shuffle_from
  count-shuffle_from zero v rng = refl
  count-shuffle_from (suc i) v rng =
      let j = xorshift rng % (suc i + 1) in
      count-shuffle_from i (swap_at v (suc i) j) (xorshift rng) ∙ count-swap_at v (suc i) j

-- A shuffle keeps the elements, whatever the state of the generator: as many of them pass any test as
-- before.
select-shuffle :
    {A : Type 0} (p : A → Bool) (v : List A) (rng : ℕ)
    → length (select p (shuffle v rng).0) ≡ length (select p v)
unfolding shuffle count
select-shuffle p v rng = count-shuffle_from p (length v - 1) v rng
