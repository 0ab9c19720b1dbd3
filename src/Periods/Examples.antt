-- ===== src/Periods/Examples.antt =====
-- The theorems on periods in the Gregorian calendar, on 3 March 2024.
use tt_aiops_platform.Prelude.{◌≡◌, length, All}
use tt_aiops_platform.Prelude.Int.{pos}
use tt_aiops_platform.Periods.{Calendar, resolve, day_buckets, week_buckets, month_buckets}
use tt_aiops_platform.Periods.Gregorian.{
  year_of, month_of, day_of, from_ymd, weekday, weekday-lt, month_of-low, month_of-le, day_of-low,
  first_days, ordered_lem,
}
use tt_aiops_platform.Periods.Ranges.{Follows, resolve-Follows}
use tt_aiops_platform.Periods.Buckets.{IsDay, IsWithinWeek, IsMonthPart, IsChain, buckets-IsChain}

abbrev calendar : Calendar
calendar = record {
  year = year_of;
  month = month_of;
  day = day_of;
  from_ymd_opt = from_ymd;
  num_days_from_monday = weekday;
  week = weekday-lt;
  month_low = month_of-low;
  month_high = month_of-le;
  day_low = day_of-low;
  first_days = first_days;
  ordered = ordered_lem;
}

resolve-Follows_example :
    Follows
      (
        (resolve calendar "last_month" (pos 739313)).cur,
        (resolve calendar "last_month" (pos 739313)).prev,
      )
      (pos 739313)
resolve-Follows_example = resolve-Follows calendar "last_month" (pos 739313)

buckets-IsChain_example :
    (IsChain (pos 739313) (day_buckets (pos 739313) 6)
      × (length (day_buckets (pos 739313) 6) ≡ 6)
      × All IsDay (day_buckets (pos 739313) 6))
    × (IsChain (pos 739313) (week_buckets calendar (pos 739313) 6)
        × (length (week_buckets calendar (pos 739313) 6) ≡ 6)
        × All IsWithinWeek (week_buckets calendar (pos 739313) 6))
    × (IsChain (pos 739313) (month_buckets calendar (pos 739313) 6)
        × (length (month_buckets calendar (pos 739313) 6) ≡ 6)
        × All (IsMonthPart calendar) (month_buckets calendar (pos 739313) 6))
buckets-IsChain_example = buckets-IsChain calendar (pos 739313) 6
