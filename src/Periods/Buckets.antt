-- ===== src/Periods/Buckets.antt =====
-- The buckets cover the days up to today without a gap.
use tt_aiops_platform.Prelude.{
  ℕ, zero, suc, ◌*◌, ◌≡◌, refl, ◌∙◌, ap, List, [], ◌∷◌, map, length, range, All, arith,
}
use tt_aiops_platform.Prelude.Int.{ℤ, pos, ◌+ℤ◌, ◌-ℤ◌, ◌≤ℤ◌, min_ℤ, int_laws, eq_of_parts}
use tt_aiops_platform.Periods.Months.{
  first_of_month_lem, same_month, first_of_month-le, next_month-gt, next_month_before,
}
use tt_aiops_platform.Periods.{
  first_of_month, next_month, Calendar, Range, day_range, monday_of, day_buckets, week_buckets,
  month_loop, month_buckets,
}

-- The first range ends at `top`, and each later one ends the day before the one above it starts; all
-- have at least one day.
abbrev pub IsChain : ℤ → List Range → Type 0
IsChain top [] = Unit
IsChain top (r ∷ rs) = (r.to ≡ top) × (r.from ≤ℤ r.to) × IsChain (r.from -ℤ pos 1) rs

length-map-range : {B : Type 0} (f : ℕ → B) (a n : ℕ) → length (map f (range a n)) ≡ n
length-map-range f a zero = refl
length-map-range f a (suc n) = ap suc (length-map-range f (suc a) n)

min_left : (a b : ℤ) → a ≤ℤ b → min_ℤ a b ≡ a
min_left a b le = ground arith

min_right : (a b : ℤ) → b ≤ℤ a → min_ℤ a b ≡ b
min_right a b le = ground (arith, eq_of_parts a b)

min_le_left : (a b : ℤ) → min_ℤ a b ≤ℤ a
min_le_left a b = ground arith

le-min : (a b c : ℤ) → c ≤ℤ a → c ≤ℤ b → c ≤ℤ min_ℤ a b
le-min a b c h k = ground arith

module _ (today : ℤ) where
  days-IsChain :
      (n i : ℕ) (top : ℤ)
      → today -ℤ pos i ≡ top
      → IsChain top (map (λ j. day_range (today -ℤ pos j)) (range i n))
  days-IsChain zero i top e = tt
  days-IsChain (suc n) i top e = (
    e,
    omega int_laws,
    days-IsChain n (suc i) (today -ℤ pos i -ℤ pos 1)
        (eq_of_parts (today -ℤ pos (suc i)) (today -ℤ pos i -ℤ pos 1) (omega int_laws)),
  )

  -- The week that starts on `mon`.
  abbrev week_range : ℤ → Range
  week_range mon = record { from = mon; to = min_ℤ (mon +ℤ pos 6) today }

  weeks-IsChain :
      (mon : ℤ) (n i : ℕ) (top : ℤ)
      → min_ℤ (mon -ℤ pos (7 * i) +ℤ pos 6) today ≡ top
      → mon -ℤ pos (7 * i) ≤ℤ today
      → IsChain top (map (λ j. week_range (mon -ℤ pos (7 * j))) (range i n))
  weeks-IsChain mon zero i top e le = tt
  weeks-IsChain mon (suc n) i top e le =
      let here = mon -ℤ pos (7 * i) in
      (
        e,
        le-min (here +ℤ pos 6) today here (omega int_laws) le,
        weeks-IsChain mon n (suc i) (here -ℤ pos 1)
            (let mon' = mon -ℤ pos (7 * suc i) in
              min_left (mon' +ℤ pos 6) today (omega int_laws)
              ∙ eq_of_parts (mon' +ℤ pos 6) (here -ℤ pos 1) (omega int_laws))
            (omega int_laws),
      )

module _ (cal : Calendar) (today : ℤ) where
  months-IsChain :
      (n : ℕ) (d top : ℤ)
      → d ≤ℤ today
      → min_ℤ (next_month cal (first_of_month cal d) -ℤ pos 1) today ≡ top
      → IsChain top (month_loop cal today (first_of_month cal d) n)
  unfolding month_loop
  months-IsChain zero d top le e = tt
  months-IsChain (suc n) d top le e =
      let first = first_of_month cal d in
      (
        e,
        le-min (next_month cal first -ℤ pos 1) today first
            (omega (int_laws, first_of_month-le cal d, next_month-gt cal d))
            (omega (int_laws, first_of_month-le cal d)),
        months-IsChain n (first -ℤ pos 1) (first -ℤ pos 1)
            (omega (int_laws, first_of_month-le cal d))
            (ap (λ x. min_ℤ (x -ℤ pos 1) today) (next_month_before cal d)
              ∙ min_left (first -ℤ pos 1) today (omega (int_laws, first_of_month-le cal d))),
      )

length-month_loop :
    (cal : Calendar) (today : ℤ) (n : ℕ) (first : ℤ) → length (month_loop cal today first n) ≡ n
unfolding month_loop
length-month_loop cal today zero first = refl
length-month_loop cal today (suc n) first =
    ap suc (length-month_loop cal today n (first_of_month cal (first -ℤ pos 1)))

All-map-range :
    {B : Type 0} (P : B → Type 0) (f : ℕ → B) (a n : ℕ)
    → ((j : ℕ) → P (f j))
    → All P (map f (range a n))
All-map-range P f a zero h = tt
All-map-range P f a (suc n) h = (h a, All-map-range P f (suc a) n h)

-- The range is of one day; of at most seven; from the first of a month to a day of the same month.
abbrev pub IsDay : Range → Type 0
IsDay r = r.to ≡ r.from

abbrev pub IsWithinWeek : Range → Type 0
IsWithinWeek r = r.to ≤ℤ r.from +ℤ pos 6

abbrev pub IsMonthPart : Calendar → Range → Type 0
IsMonthPart cal r =
    (cal.day r.from ≡ 1) × (cal.year r.to ≡ cal.year r.from) × (cal.month r.to ≡ cal.month r.from)

month_loop-IsMonthPart :
    (cal : Calendar) (today : ℤ) (n : ℕ) (d : ℤ)
    → d ≤ℤ today
    → All (IsMonthPart cal) (month_loop cal today (first_of_month cal d) n)
unfolding month_loop
month_loop-IsMonthPart cal today zero d le = tt
month_loop-IsMonthPart cal today (suc n) d le =
    let first = first_of_month cal d in
    let last = next_month cal first -ℤ pos 1 in
    let starts = first_of_month-le cal d in
    let ends = next_month-gt cal d in
    let (_, _, one) = first_of_month_lem cal d in
    let within = min_le_left last today in
    let (year, month) =
      same_month cal d (min_ℤ last today)
        (le-min last today first (omega (int_laws, starts, ends)) (omega (int_laws, starts)))
        (omega (int_laws, within)) in
    (
      (one, year, month),
      month_loop-IsMonthPart cal today n (first -ℤ pos 1) (omega (int_laws, starts)),
    )

-- The most recent `n` buckets of days, of weeks and of months: there are `n` of each, they go back
-- from today without a gap or an overlap, and each has at least one day. A bucket of days has one day, a
-- bucket of weeks at most seven, and a bucket of months starts on the first of a month and ends in that
-- month.
pub buckets-IsChain :
    (cal : Calendar) (today : ℤ) (n : ℕ)
    → (IsChain today (day_buckets today n)
        × (length (day_buckets today n) ≡ n)
        × All IsDay (day_buckets today n))
      × (IsChain today (week_buckets cal today n)
          × (length (week_buckets cal today n) ≡ n)
          × All IsWithinWeek (week_buckets cal today n))
      × (IsChain today (month_buckets cal today n)
          × (length (month_buckets cal today n) ≡ n)
          × All (IsMonthPart cal) (month_buckets cal today n))
unfolding day_buckets week_buckets month_buckets monday_of
buckets-IsChain cal today n =
    let mon = today -ℤ pos (cal.num_days_from_monday today) in
    (
      (
        days-IsChain today n 0 today (eq_of_parts (today -ℤ pos 0) today (omega int_laws)),
        length-map-range _ 0 n,
        All-map-range IsDay _ 0 n (λ j. refl),
      ),
      (
        weeks-IsChain today mon n 0 today
            (min_right (mon -ℤ pos 0 +ℤ pos 6) today (omega (int_laws, cal.week today)))
            (omega int_laws),
        length-map-range _ 0 n,
        All-map-range IsWithinWeek _ 0 n (λ j. min_le_left (mon -ℤ pos (7 * j) +ℤ pos 6) today),
      ),
      (
        months-IsChain cal today n today today (omega arith) (
            min_right (next_month cal (first_of_month cal today) -ℤ pos 1) today
              (omega (int_laws, next_month-gt cal today))),
        length-month_loop cal today n (first_of_month cal today),
        month_loop-IsMonthPart cal today n today (omega arith),
      ),
    )
