-- ===== src/Periods/Cycles.antt =====
-- Integers as a cycle and a position in it, for the cycles of 400 years, of 146097 days each, of the
-- dates of crates/api/src/periods.rs.
use tt_aiops_platform.Prelude.{ℕ, ◌+◌, ◌-◌, ◌*◌, ◌/◌, ◌%◌, ◌≡◌, ◌<◌, ◌≤◌, ◌⊎◌, ap, inl, inr, arith}
use native.Mathlib.Decide.{dec_lt}
use tt_aiops_platform.Prelude.Int.{ℤ, pos, negsuc, ◌<ℤ◌}

-- The quotient and the remainder of an integer by a constant, and the integer of both.
abbrev pub quot : ℕ → ℤ → ℤ
quot n (pos a) = pos (a / n)
quot n (negsuc a) = negsuc (a / n)

abbrev pub rem : ℕ → ℤ → ℕ
rem n (pos a) = a % n
rem n (negsuc a) = n - 1 - a % n

abbrev pub join : ℕ → ℤ → ℕ → ℤ
join n (pos q) r = pos (q * n + r)
join n (negsuc q) r = negsuc (q * n + (n - 1 - r))

pub rem-le : (y : ℤ) → rem 400 y ≤ 399
rem-le (pos n) = omega arith
rem-le (negsuc n) = omega arith

pub quot-join : (c : ℤ) (r : ℕ) → r < 146097 → quot 146097 (join 146097 c r) ≡ c
quot-join (pos q) r lt = ap pos (omega arith)
quot-join (negsuc q) r lt = ap negsuc (omega arith)

pub rem-join : (c : ℤ) (r : ℕ) → r < 146097 → rem 146097 (join 146097 c r) ≡ r
rem-join (pos q) r lt = omega arith
rem-join (negsuc q) r lt = omega arith

pub join-quot : (y : ℤ) → join 400 (quot 400 y) (rem 400 y) ≡ y
join-quot (pos n) = ap pos (omega arith)
join-quot (negsuc n) = ap negsuc (omega arith)

pub quot-lt :
    (d e : ℤ)
    → d <ℤ e
    → (quot 146097 d <ℤ quot 146097 e)
      ⊎ (quot 146097 d ≡ quot 146097 e) × (rem 146097 d < rem 146097 e)
quot-lt (pos d) (pos e) lt = elim (dec_lt (d / 146097) (e / 146097)) [
  | yes q ↦ inl (omega arith)
  | no n ↦ inr (ap pos (omega arith), omega arith)
]
quot-lt (pos d) (negsuc e) lt = absurd (omega arith)
quot-lt (negsuc d) (pos e) lt = inl (omega arith)
quot-lt (negsuc d) (negsuc e) lt = elim (dec_lt (e / 146097) (d / 146097)) [
  | yes q ↦ inl (omega arith)
  | no n ↦ inr (ap negsuc (omega arith), omega arith)
]

-- A later cycle has later years, and in the same cycle a later year is later.
pub join-lt : (c f : ℤ) (x y : ℕ) → c <ℤ f → x ≤ 399 → join 400 c x <ℤ join 400 f y
join-lt (pos a) (pos b) x y lt le = omega arith
join-lt (pos a) (negsuc b) x y lt le = absurd (omega arith)
join-lt (negsuc a) (pos b) x y lt le = omega arith
join-lt (negsuc a) (negsuc b) x y lt le = omega arith

pub join-lt_year : (c : ℤ) (x y : ℕ) → x < y → y ≤ 399 → join 400 c x <ℤ join 400 c y
join-lt_year (pos a) x y lt le = omega arith
join-lt_year (negsuc a) x y lt le = omega arith
