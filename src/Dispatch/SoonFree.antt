-- ===== src/Dispatch/SoonFree.antt =====
-- crates/api/src/livemap.rs: `soon_free_pred_bucket` and `soon_free_quantile`. The order of the
-- 32-bit floats is a parameter, a Boolean test of any kind.
use tt_aiops_platform.Prelude.{
  ℕ, suc, zero, ◌≡◌, sym, length, ◌<◌, refl, Bool, true, false, Option, none, some, List, [], ◌∷◌,
  if◌then◌else◌, inl, inr, Bool-cases, arith, All, get_elem?, ◌⊎◌,
}
use tt_aiops_platform.Prelude.Int.{ℤ, pos, leb_ℤ, ◌≤ℤ◌, ◌<ℤ◌}

unfoldable pub soon_free_pred_bucket : ℤ → ℤ
soon_free_pred_bucket s =
    if leb_ℤ s (pos 0)
    then pos 0
    else if leb_ℤ s (pos 60)
    then pos 60
    else if leb_ℤ s (pos 300)
    then pos 300
    else if leb_ℤ s (pos 900)
    then pos 900
    else pos 3600

abbrev pub soon_free_points : List ℤ
soon_free_points =
    pos 60 ∷ pos 120 ∷ pos 180 ∷ pos 300 ∷ pos 450 ∷ pos 600 ∷ pos 900 ∷ pos 1200 ∷ pos 1800 ∷ []

-- `a >= b` on the fractions.
module _ {F : Type 0} (ge : F → F → Bool) where
  -- The `find` on the zipped lists.
  unfoldable pub first_reached : List ℤ → List F → F → Option ℤ
  first_reached [] fs p = none
  first_reached (s ∷ ss) [] p = none
  first_reached (s ∷ ss) (f ∷ fs) p =
      let rest = first_reached ss fs p in if ge f p then some s else rest

  unfoldable pub soon_free_quantile : List F → F → Option ℤ
  soon_free_quantile fracs p = first_reached soon_free_points fracs p

  -- `s` is the entry at the first place where the fraction reaches `p`.
  abbrev pub IsFirst : List ℤ → List F → F → ℤ → Type 0
  IsFirst ss fs p s =
      (i : ℕ) × (f : F) × (get_elem? ss i ≡ some s)
      × (get_elem? fs i ≡ some f)
      × (ge f p ≡ true)
      × ((j : ℕ) (g : F) → j < i → get_elem? fs j ≡ some g → ge g p ≡ false)

  IsFirst-later :
      (s t : ℤ) (ss : List ℤ) (f : F) (fs : List F) (p : F)
      → ge f p ≡ false
      → IsFirst ss fs p t
      → IsFirst (s ∷ ss) (f ∷ fs) p t
  IsFirst-later s t ss f fs p e (i, g, at_s, at_f, h, below) = (suc i, g, at_s, at_f, h, before)
    where
      before : (j : ℕ) (g' : F) → j < suc i → get_elem? (f ∷ fs) j ≡ some g' → ge g' p ≡ false
      before zero g' lt k = ground arith
      before (suc j) g' lt k = below j g' (omega arith) k

  first_reached-cases :
      (ss : List ℤ) (fs : List F) (p : F)
      → length ss ≡ length fs
      → (first_reached ss fs p ≡ none) × All (λ f. ge f p ≡ false) fs
        ⊎ (s : ℤ) × (first_reached ss fs p ≡ some s) × IsFirst ss fs p s
  unfolding first_reached
  first_reached-cases [] [] p m = inl (refl, tt)
  first_reached-cases [] (f ∷ fs) p m = absurd (omega arith)
  first_reached-cases (s ∷ ss) [] p m = absurd (omega arith)
  first_reached-cases (s ∷ ss) (f ∷ fs) p m = elim (Bool-cases (ge f p)) [
    | inl e ↦ inr (s, rw e refl, (0, f, refl, refl, e, (λ j g lt k. absurd (omega arith))))
    | inr e ↦ elim (first_reached-cases ss fs p (omega arith)) [
      | inl (k, h) ↦ inl (rw e k, (e, h))
      | inr (t, k, h) ↦ inr (t, rw e k, IsFirst-later s t ss f fs p e h)
    ]
  ]

  -- Of nine fractions either none reaches `p` and there is no answer, or the answer is the time at
  -- the first fraction that reaches it.
  soon_free_quantile-cases :
      (fracs : List F) (p : F)
      → length fracs ≡ 9
      → (soon_free_quantile fracs p ≡ none) × All (λ f. ge f p ≡ false) fracs
        ⊎ (s : ℤ) × (soon_free_quantile fracs p ≡ some s) × IsFirst soon_free_points fracs p s
  unfolding soon_free_quantile
  soon_free_quantile-cases fracs p m = first_reached-cases soon_free_points fracs p (sym m)

-- A predicted time falls in a class that is not below it, unless it is more than 900, and longer
-- times never fall in lower classes.
soon_free_pred_bucket_lem :
    (s t : ℤ)
    → s ≤ℤ t
    → (soon_free_pred_bucket s ≤ℤ soon_free_pred_bucket t)
      × ((s ≤ℤ soon_free_pred_bucket s) ⊎ (pos 900 <ℤ s) × (soon_free_pred_bucket s ≡ pos 3600))
unfolding soon_free_pred_bucket
soon_free_pred_bucket_lem s t le = ground arith
