-- ===== src/Prelude/Counts.antt =====
-- How often a number stands in a list, and what the counts say of the places.
use Prim.Native.Nat.{ℕ, zero, suc, ◌+◌, ◌≤◌, ◌<◌}
use mathlib.Core.Path.{◌≡◌, refl, ap}
use mathlib.Core.Logic.{inl, inr}
use mathlib.Core.List.{List, [], ◌∷◌}
use native.Mathlib.Omega.{arith}
use tt_aiops_platform.Prelude.Tests.{if◌then◌else◌, eqb, Bool-cases}
use tt_aiops_platform.Prelude.Lists.{length, get_or, set, replicate}

abbrev pub one_if_same : ℕ → ℕ → ℕ
one_if_same t u = if eqb t u then 1 else 0

abbrev pub copies : ℕ → List ℕ → ℕ
copies t [] = 0
copies t (u ∷ us) = one_if_same t u + copies t us

pub copies-set :
    (t i v : ℕ) (us : List ℕ)
    → i < length us
    → copies t (set us i v) + one_if_same t (get_or us i 0) ≡ copies t us + one_if_same t v
copies-set t i v [] h = absurd (omega arith)
copies-set t zero v (u ∷ us) h = omega arith
copies-set t (suc i) v (u ∷ us) h = omega (arith, copies-set t i v us (omega arith))

pub copies-get_or : (x : ℕ) (us : List ℕ) → x < length us → 1 ≤ copies (get_or us x 0) us
copies-get_or x [] h = absurd (omega arith)
copies-get_or zero (u ∷ us) h = ground arith
copies-get_or (suc x) (u ∷ us) h = omega (arith, copies-get_or x us (omega arith))

-- A number that stands once stands in one place.
pub eq_of_copies :
    (t x y : ℕ) (us : List ℕ)
    → x < length us
    → y < length us
    → get_or us x 0 ≡ t
    → get_or us y 0 ≡ t
    → copies t us ≤ 1
    → x ≡ y
eq_of_copies t x y [] h k p q c = absurd (omega arith)
eq_of_copies t zero zero (u ∷ us) h k p q c = refl
eq_of_copies t zero (suc y) (u ∷ us) h k p q c =
    absurd (ground (arith, copies-get_or y us (omega arith), ap (λ r. copies r us) q))
eq_of_copies t (suc x) zero (u ∷ us) h k p q c =
    absurd (ground (arith, copies-get_or x us (omega arith), ap (λ r. copies r us) p))
eq_of_copies t (suc x) (suc y) (u ∷ us) h k p q c =
    ap suc (eq_of_copies t x y us (omega arith) (omega arith) p q (omega arith))

pub place_of_copies :
    (t : ℕ) (us : List ℕ) → 1 ≤ copies t us → (x : ℕ) × (x < length us) × (get_or us x 0 ≡ t)
place_of_copies t [] h = absurd (omega arith)
place_of_copies t (u ∷ us) h = elim (Bool-cases (eqb t u)) [
  | inl e ↦ (0, omega arith, ground arith)
  | inr e ↦ let (x, lt, q) = place_of_copies t us (ground arith) in (suc x, omega arith, q)
]

pub copies-replicate : (t n v : ℕ) → copies t (replicate n v) ≡ (if eqb t v then n else 0)
copies-replicate t zero v = ground arith
copies-replicate t (suc n) v = ground (arith, copies-replicate t n v)
