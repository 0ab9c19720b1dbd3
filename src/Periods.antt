-- ===== src/Periods.antt =====
-- crates/api/src/periods.rs: the date ranges of a named period and of the one before it, and the
-- buckets of days, weeks and months. A date is a day number; the fields of a date and its construction,
-- which are chrono's, are an interface.
pub mod Months
pub mod Ranges
pub mod Buckets
mod Stretches
mod Cycles
mod Gregorian
mod Examples
use tt_aiops_platform.Prelude.{
  ℕ, zero, suc, ◌+◌, ◌*◌, ◌≡◌, ◌<◌, ◌≤◌, ◌⊎◌, Option, some, unwrap_or, eqb, String, Bool, true,
  false, ◌&&◌, ◌||◌, List, [], ◌∷◌, map, if◌then◌else◌, ◌==◌, string_eq, range,
}
use tt_aiops_platform.Prelude.Int.{ℤ, pos, ◌+ℤ◌, ◌-ℤ◌, ◌≤ℤ◌, ◌<ℤ◌, leb_ℤ, min_ℤ}

-- What chrono gives of a date: its year, its month and its day of the month, the date of three such
-- numbers, and the days since Monday. The laws: months and days count from 1, a month has at most the
-- number 12, every month has a first day and `from_ymd_opt` finds it, and an earlier date has an
-- earlier year, or in the same year an earlier month, or in the same month an earlier day. The years
-- stay in chrono's range.
pub record Calendar : Type 0 where
  pub year : ℤ → ℤ
  pub month : ℤ → ℕ
  pub day : ℤ → ℕ
  pub from_ymd_opt : ℤ → ℕ → ℕ → Option ℤ
  pub num_days_from_monday : ℤ → ℕ
  pub week : (d : ℤ) → num_days_from_monday d < 7
  pub month_low : (d : ℤ) → 1 ≤ month d
  pub month_high : (d : ℤ) → month d ≤ 12
  pub day_low : (d : ℤ) → 1 ≤ day d
  pub first_days :
      (y : ℤ) (m : ℕ)
      → 1 ≤ m
      → m ≤ 12
      → (d : ℤ) × (from_ymd_opt y m 1 ≡ some d) × (year d ≡ y) × (month d ≡ m) × (day d ≡ 1)
  pub ordered :
      (d e : ℤ)
      → d <ℤ e
      → (year d <ℤ year e)
        ⊎ (year d ≡ year e) × ((month d < month e) ⊎ (month d ≡ month e) × (day d < day e))

pub record Range : Type 0 where
  pub from : ℤ
  pub to : ℤ

pub record Resolved : Type 0 where
  pub period : String
  pub cur : Range
  pub prev : Range

-- The closure `day`.
abbrev pub day_range : ℤ → Range
day_range d = record { from = d; to = d }

unfoldable pub includes_today : Range → ℤ → Bool
includes_today r today = leb_ℤ r.from today && leb_ℤ today r.to

abbrev pub is_period : String → Bool
is_period p =
    p == "today"
    || (p == "yesterday"
        || (p == "last7"
            || (p == "last30"
                || (p == "this_week"
                    || (p == "last_week" || (p == "this_month" || p == "last_month"))))))

unfoldable pub day_buckets : ℤ → ℕ → List Range
day_buckets today n = map (λ i. day_range (today -ℤ pos i)) (range 0 n)

module _ (cal : Calendar) where
  unfoldable pub monday_of : ℤ → ℤ
  monday_of d = d -ℤ pos (cal.num_days_from_monday d)

  -- `unwrap`, which does not panic: the argument is a date (`Months.first_of_month_lem`,
  -- `Months.next_month_lem`); the day 0 stands for the panic.
  abbrev pub unwrap : Option ℤ → ℤ
  unwrap o = unwrap_or o (pos 0)

  unfoldable pub first_of_month : ℤ → ℤ
  first_of_month d = unwrap (cal.from_ymd_opt (cal.year d) (cal.month d) 1)

  unfoldable pub next_month : ℤ → ℤ
  next_month first_of =
      if eqb (cal.month first_of) 12
      then unwrap (cal.from_ymd_opt (cal.year first_of +ℤ pos 1) 1 1)
      else unwrap (cal.from_ymd_opt (cal.year first_of) (cal.month first_of + 1) 1)

  -- The ranges of the `match`, each with the one before.
  unfoldable pub ranges_of : String → ℤ → Range × Range
  unfolding monday_of
  ranges_of period today =
      let y = today -ℤ pos 1 in
      let mon = monday_of today in
      let first = first_of_month today in
      let lm_last = first -ℤ pos 1 in
      let lm_first = first_of_month lm_last in
      let pm_last = lm_first -ℤ pos 1 in
      if period == "today"
      then (day_range today, day_range y)
      else if period == "yesterday"
      then (day_range y, day_range (today -ℤ pos 2))
      else if period == "last7"
      then (
        record { from = today -ℤ pos 6; to = today },
        record { from = today -ℤ pos 6 -ℤ pos 7; to = today -ℤ pos 6 -ℤ pos 1 },
      )
      else if period == "last30"
      then (
        record { from = today -ℤ pos 29; to = today },
        record { from = today -ℤ pos 29 -ℤ pos 30; to = today -ℤ pos 29 -ℤ pos 1 },
      )
      else if period == "this_week"
      then (record { from = mon; to = today }, record { from = mon -ℤ pos 7; to = mon -ℤ pos 1 })
      else if period == "last_week"
      then (
        record { from = mon -ℤ pos 7; to = mon -ℤ pos 1 },
        record { from = mon -ℤ pos 7 -ℤ pos 7; to = mon -ℤ pos 1 -ℤ pos 7 },
      )
      else if period == "this_month"
      then (record { from = first; to = today }, record { from = lm_first; to = lm_last })
      else if period == "last_month"
      then (
        record { from = lm_first; to = lm_last },
        record { from = first_of_month pm_last; to = pm_last },
      )
      else (day_range y, day_range (today -ℤ pos 2))

  unfoldable pub resolve : String → ℤ → Resolved
  resolve period today =
      let r = ranges_of period today in
      record { period = if is_period period then period else "yesterday"; cur = r.0; prev = r.1 }

  unfoldable pub week_buckets : ℤ → ℕ → List Range
  week_buckets today n =
      let cur_mon = monday_of today in
      map
        (λ i.
          let mon = cur_mon -ℤ pos (7 * i) in
          record { from = mon; to = min_ℤ (mon +ℤ pos 6) today })
        (range 0 n)

  -- The loop from the month that starts at `first`.
  unfoldable pub month_loop : ℤ → ℤ → ℕ → List Range
  month_loop today first zero = []
  month_loop today first (suc n) =
      record { from = first; to = min_ℤ (next_month first -ℤ pos 1) today }
      ∷ month_loop today (first_of_month (first -ℤ pos 1)) n

  unfoldable pub month_buckets : ℤ → ℕ → List Range
  unfolding month_loop
  month_buckets today n = month_loop today (first_of_month today) n
