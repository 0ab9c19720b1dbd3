-- ===== src/Periods/Stretches.antt =====
-- Stretches of given lengths, for the years of a cycle and the months of a year: in which of them a day
-- lies, and where each begins. For the dates of crates/api/src/periods.rs.
use tt_aiops_platform.Prelude.{
  ℕ, zero, suc, ◌+◌, ◌-◌, ◌≡◌, ◌<◌, ◌≤◌, ◌⊎◌, refl, ap, true, false, List, [], ◌∷◌, All, length,
  if◌then◌else◌, ltb, inl, inr, Bool-cases, arith,
}

-- Along stretches of the given lengths, the last of no limit: in which one `r` lies, and where in it.
unfoldable pub walk : List ℕ → ℕ → ℕ × ℕ
walk [] r = (0, r)
walk (l ∷ ls) r = let rest = walk ls (r - l) in if ltb r l then (0, r) else (suc rest.0, rest.1)

unfoldable pub start : List ℕ → ℕ → ℕ
start ls zero = 0
start [] (suc m) = 0
start (l ∷ ls) (suc m) = l + start ls m

unfoldable pub total : List ℕ → ℕ
total [] = 0
total (l ∷ ls) = l + total ls

pub walk-le : (ls : List ℕ) (r : ℕ) → (walk ls r).0 ≤ length ls
unfolding walk
walk-le [] r = omega arith
walk-le (l ∷ ls) r = ground (arith, walk-le ls (r - l))

pub walk-lt :
    (ls : List ℕ) (r s : ℕ)
    → r < s
    → ((walk ls r).0 < (walk ls s).0)
      ⊎ ((walk ls r).0 ≡ (walk ls s).0) × ((walk ls r).1 < (walk ls s).1)
unfolding walk
walk-lt [] r s lt = inr (refl, lt)
walk-lt (l ∷ ls) r s lt = elim (Bool-cases (ltb r l)) [
  | inl e ↦ ground arith
  | inr e ↦ let rest = walk-lt ls (r - l) (s - l) (ground arith) in ground (arith, rest)
]

pub start-le : (ls : List ℕ) (m : ℕ) → start ls m ≤ total ls
unfolding start total
start-le ls zero = omega arith
start-le [] (suc m) = omega arith
start-le (l ∷ ls) (suc m) = omega (arith, start-le ls m)

pub walk-start :
    (ls : List ℕ) (b m k : ℕ)
    → All (λ l. b ≤ l) ls
    → m ≤ length ls
    → k < b
    → walk ls (start ls m + k) ≡ (m, k)
unfolding walk start
walk-start [] b zero k h le lt = ap (λ x. (0, x)) (omega arith)
walk-start [] b (suc m) k h le lt = absurd (omega arith)
walk-start (l ∷ ls) b zero k h le lt =
    let small : ltb (0 + k) l ≡ true = ground (arith, h.0) in
    rw small (ap (λ x. (0, x)) (omega arith))
walk-start (l ∷ ls) b (suc m) k h le lt =
    let big : ltb (l + start ls m + k) l ≡ false = ground arith in
    let left : l + start ls m + k - l ≡ start ls m + k = omega arith in
    let rest = walk-start ls b m k h.1 (omega arith) lt in
    rw (big, left) (ap (λ x. (suc x.0, x.1)) rest)
