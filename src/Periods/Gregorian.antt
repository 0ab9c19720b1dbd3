-- ===== src/Periods/Gregorian.antt =====
-- The Gregorian calendar, as a concrete calendar for the periods of crates/api/src/periods.rs: a day
-- number is a number of days from the start of the year 0. With Periods/Stretches and Periods/Cycles.
use tt_aiops_platform.Prelude.{
  ℕ, zero, suc, ◌+◌, ◌-◌, ◌%◌, ◌≡◌, ◌<◌, ◌≤◌, ◌⊎◌, refl, sym, ap, subst, ◌∙◌, Bool, not, ◌&&◌, ◌||◌,
  Option, some, none, List, [], ◌∷◌, All, map, range, length, if◌then◌else◌, leb, eqb, inl, inr,
  get_or, arith,
}
use tt_aiops_platform.Prelude.Int.{ℤ, pos, negsuc, ◌<ℤ◌}
use tt_aiops_platform.Periods.Stretches.{walk, start, total, walk-le, walk-lt, start-le, walk-start}
use tt_aiops_platform.Periods.Cycles.{
  quot, rem, join, rem-le, quot-join, rem-join, join-quot, quot-lt, join-lt, join-lt_year,
}

is_leap : ℕ → Bool
is_leap y = eqb (y % 4) 0 && (not (eqb (y % 100) 0) || eqb (y % 400) 0)

-- The lengths of the first 399 years of a cycle of 400, and of the first 11 months of a year.
years : List ℕ
years = map (λ y. if is_leap y then 366 else 365) (range 0 399)

months : ℕ → List ℕ
months y = 31 ∷ (if is_leap y then 29 else 28) ∷ 31 ∷ 30 ∷ 31 ∷ 30 ∷ 31 ∷ 31 ∷ 30 ∷ 31 ∷ 30 ∷ []

total-years : total years ≡ 145732
unfolding total years is_leap
total-years = refl

length-years : length years ≡ 399
unfolding years
length-years = refl

total-months : (y : ℕ) → total (months y) ≤ 335
unfolding total months
total-months y = ground arith

length-months : (y : ℕ) → length (months y) ≡ 11
unfolding months
length-months y = refl

months-All : (y : ℕ) → All (λ l. 1 ≤ l) (months y)
unfolding months
months-All y = ground arith

All-years : (i n : ℕ) → All (λ l. 365 ≤ l) (map (λ y. if is_leap y then 366 else 365) (range i n))
All-years i zero = tt
All-years i (suc n) = (ground arith, All-years (suc i) n)

years-All : All (λ l. 365 ≤ l) years
unfolding years
years-All = All-years 0 399

-- The year within the cycle of a day, and the day within the year.
place : ℤ → ℕ × ℕ
place d = walk years (rem 146097 d)

place-le : (d : ℤ) → (place d).0 ≤ 399
unfolding place
place-le d = omega (arith, walk-le years (rem 146097 d), length-years)

pub year_of : ℤ → ℤ
year_of d = join 400 (quot 146097 d) (place d).0

pub month_of : ℤ → ℕ
month_of d = suc (walk (months (place d).0) (place d).1).0

pub day_of : ℤ → ℕ
day_of d = suc (walk (months (place d).0) (place d).1).1

day_at : ℤ → ℕ → ℕ → ℤ
day_at y m k =
    join 146097 (quot 400 y)
      (start years (rem 400 y) + (start (months (rem 400 y)) (m - 1) + (k - 1)))

month_len : ℕ → ℕ → ℕ
month_len y m = get_or (months y) (m - 1) 31

pub from_ymd : ℤ → ℕ → ℕ → Option ℤ
from_ymd y m k =
    if leb 1 m && leb m 12 && leb 1 k && leb k (month_len (rem 400 y) m)
    then some (day_at y m k)
    else none

Before : ℤ → ℤ → Type 0
Before d e =
    (year_of d <ℤ year_of e)
    ⊎ (year_of d ≡ year_of e)
      × ((month_of d < month_of e) ⊎ (month_of d ≡ month_of e) × (day_of d < day_of e))

-- Within a year, a later day is in a later month or later in its month.
month-lt :
    (x y r s : ℕ)
    → x ≡ y
    → r < s
    → (suc (walk (months x) r).0 < suc (walk (months y) s).0)
      ⊎ (suc (walk (months x) r).0 ≡ suc (walk (months y) s).0)
        × (suc (walk (months x) r).1 < suc (walk (months y) s).1)
month-lt x y r s e lt =
    let moved : walk (months x) r ≡ walk (months y) r = ap (λ q. walk (months q) r) e in
    rw moved ground (arith, walk-lt (months y) r s lt)

ordered : (d e : ℤ) → d <ℤ e → Before d e
unfolding Before year_of month_of day_of place
ordered d e lt = elim (quot-lt d e lt) [
  | inl c ↦ inl (join-lt (quot 146097 d) (quot 146097 e) (place d).0 (place e).0 c (place-le d))
  | inr (c, r) ↦ elim (walk-lt years (rem 146097 d) (rem 146097 e) r) [
    | inl y ↦ inl (
        subst (λ q. join 400 q (place d).0 <ℤ year_of e) (sym c)
          (join-lt_year (quot 146097 e) (place d).0 (place e).0 y (place-le e)))
    | inr (y, k) ↦ inr (
      ap (λ q. join 400 q (place d).0) c ∙ ap (λ x. join 400 (quot 146097 e) x) y,
      month-lt (place d).0 (place e).0 (place d).1 (place e).1 y k,
    )
  ]
]

get_or-low : (ls : List ℕ) (i : ℕ) → All (λ l. 1 ≤ l) ls → 1 ≤ get_or ls i 31
get_or-low [] i h = omega arith
get_or-low (l ∷ ls) zero h = h.0
get_or-low (l ∷ ls) (suc i) h = get_or-low ls i h.1

month_len-low : (y m : ℕ) → 1 ≤ month_len y m
unfolding month_len
month_len-low y m = get_or-low (months y) (m - 1) (months-All y)

-- The day of the year of the first day of a month, and of it the day of the cycle.
month_start : ℕ → ℕ → ℕ
month_start y m = start (months y) (m - 1) + 0

cycle_start : ℕ → ℕ → ℕ
cycle_start y m = start years y + month_start y m

month_start-lt : (y m : ℕ) → month_start y m < 365
unfolding month_start
month_start-lt y m = omega (arith, start-le (months y) (m - 1), total-months y)

cycle_start-lt : (y m : ℕ) → cycle_start y m < 146097
unfolding cycle_start
cycle_start-lt y m = omega (arith, start-le years y, total-years, month_start-lt y m)

walk-cycle_start : (y m : ℕ) → y ≤ 399 → walk years (cycle_start y m) ≡ (y, month_start y m)
unfolding cycle_start
walk-cycle_start y m le =
    walk-start years 365 y (month_start y m) years-All (omega (arith, length-years))
      (month_start-lt y m)

walk-month_start : (y m : ℕ) → 1 ≤ m → m ≤ 12 → walk (months y) (month_start y m) ≡ (m - 1, 0)
unfolding month_start
walk-month_start y m low high =
    walk-start (months y) 1 (m - 1) 0 (months-All y) (omega (arith, length-months y)) (omega arith)

pub first_days :
    (y : ℤ) (m : ℕ)
    → 1 ≤ m
    → m ≤ 12
    → (d : ℤ) × (from_ymd y m 1 ≡ some d) × (year_of d ≡ y) × (month_of d ≡ m) × (day_of d ≡ 1)
unfolding from_ymd year_of month_of day_of place day_at month_start cycle_start
first_days y m low high =
    let r = rem 400 y in
    let d = join 146097 (quot 400 y) (cycle_start r m) in
    let within = cycle_start-lt r m in
    let at : place d ≡ (r, month_start r m) =
      ap (walk years) (rem-join (quot 400 y) (cycle_start r m) within)
      ∙ walk-cycle_start r m (rem-le y) in
    let on : walk (months (place d).0) (place d).1 ≡ (m - 1, 0) =
      ap (λ p. walk (months p.0) p.1) at ∙ walk-month_start r m low high in
    let same_cycle = quot-join (quot 400 y) (cycle_start r m) within in
    (
      d,
      ground (arith, month_len-low r m),
      ap (λ q. join 400 q (place d).0) same_cycle
          ∙ (ap (λ p. join 400 (quot 400 y) p.0) at ∙ join-quot y),
      ap (λ p. suc p.0) on ∙ omega arith,
      ap (λ p. suc p.1) on,
    )

-- The day 0 is a Saturday.
pub weekday : ℤ → ℕ
weekday (pos n) = (n + 5) % 7
weekday (negsuc n) = 6 - (n + 2) % 7

pub weekday-lt : (d : ℤ) → weekday d < 7
unfolding weekday
weekday-lt (pos n) = omega arith
weekday-lt (negsuc n) = omega arith

pub month_of-le : (d : ℤ) → month_of d ≤ 12
unfolding month_of
month_of-le d = omega (arith, walk-le (months (place d).0) (place d).1, length-months (place d).0)

pub month_of-low : (d : ℤ) → 1 ≤ month_of d
unfolding month_of
month_of-low d = omega arith

pub day_of-low : (d : ℤ) → 1 ≤ day_of d
unfolding day_of
day_of-low d = omega arith

pub ordered_lem :
    (d e : ℤ)
    → d <ℤ e
    → (year_of d <ℤ year_of e)
      ⊎ (year_of d ≡ year_of e)
        × ((month_of d < month_of e) ⊎ (month_of d ≡ month_of e) × (day_of d < day_of e))
unfolding Before
ordered_lem d e lt = ordered d e lt

-- 1 March 2024.
from_ymd_example : from_ymd (pos 2024) 3 1 ≡ some (pos 739311)
unfolding from_ymd day_at start years is_leap months month_len
from_ymd_example = refl

-- The day before it is in February.
leap_day : month_of (pos 739310) ≡ 2
unfolding month_of place walk years is_leap months
leap_day = refl

-- It was a Friday.
friday : weekday (pos 739311) ≡ 4
unfolding weekday
friday = refl
