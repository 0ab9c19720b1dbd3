-- ===== src/Periods/Ranges.antt =====
-- The ranges of a period and of the one before it.
use tt_aiops_platform.Prelude.{◌≡◌, refl, String, Bool, true, false, ◌==◌, string_eq, if◌then◌else◌}
use tt_aiops_platform.Prelude.Int.{ℤ, pos, ◌-ℤ◌, ◌≤ℤ◌, int_laws, eq_of_parts}
use tt_aiops_platform.Periods.Months.{first_of_month-le}
use tt_aiops_platform.Periods.{first_of_month, Calendar, Range, monday_of, ranges_of, resolve}

-- Two ranges of days, the second just before the first, and neither after `today`.
abbrev pub Follows : Range × Range → ℤ → Type 0
Follows r today =
    (r.0.from ≤ℤ r.0.to) × (r.0.to ≤ℤ today) × (r.1.from ≤ℤ r.1.to) × (r.1.to ≡ r.0.from -ℤ pos 1)

Follows-if :
    (c : Bool) (p q : Range × Range) (today : ℤ)
    → Follows p today
    → Follows q today
    → Follows (if c then p else q) today
Follows-if true p q today h k = h
Follows-if false p q today h k = k

-- The day before yesterday, and the end of the week before last.
two_days : (d : ℤ) → d -ℤ pos 2 ≡ d -ℤ pos 1 -ℤ pos 1
two_days d = eq_of_parts (d -ℤ pos 2) (d -ℤ pos 1 -ℤ pos 1) (omega int_laws)

eight_days : (d : ℤ) → d -ℤ pos 1 -ℤ pos 7 ≡ d -ℤ pos 7 -ℤ pos 1
eight_days d = eq_of_parts (d -ℤ pos 1 -ℤ pos 7) (d -ℤ pos 7 -ℤ pos 1) (omega int_laws)

-- Each period of the source has at least one day, ends today at the latest, and is compared with a
-- range of at least one day that ends the day before it starts.
pub resolve-Follows :
    (cal : Calendar) (period : String) (today : ℤ)
    → Follows ((resolve cal period today).cur, (resolve cal period today).prev) today
unfolding resolve ranges_of monday_of
resolve-Follows cal period today =
    let first = first_of_month cal today in
    let lm_last = first -ℤ pos 1 in
    let lm_first = first_of_month cal lm_last in
    let pm_last = lm_first -ℤ pos 1 in
    let yesterday : Follows
        (
          record { from = today -ℤ pos 1; to = today -ℤ pos 1 },
          record { from = today -ℤ pos 2; to = today -ℤ pos 2 },
        )
        today =
      (omega int_laws, omega int_laws, omega int_laws, two_days today) in
    Follows-if (period == "today") _ _ today (omega int_laws, omega int_laws, omega int_laws, refl)
      (Follows-if (period == "yesterday") _ _ today yesterday (
        Follows-if (period == "last7") _ _ today
          (omega int_laws, omega int_laws, omega int_laws, refl)
          (Follows-if (period == "last30") _ _ today
            (omega int_laws, omega int_laws, omega int_laws, refl)
            (Follows-if (period == "this_week") _ _ today
              (omega int_laws, omega int_laws, omega int_laws, refl)
              (Follows-if (period == "last_week") _ _ today
                (
                  omega int_laws,
                  omega int_laws,
                  omega int_laws,
                  eight_days (today -ℤ pos (cal.num_days_from_monday today)),
                )
                (Follows-if (period == "this_month") _ _ today
                  (
                    omega (int_laws, first_of_month-le cal today),
                    omega int_laws,
                    omega (int_laws, first_of_month-le cal lm_last),
                    refl,
                  )
                  (Follows-if (period == "last_month") _ _ today
                    (
                      omega (int_laws, first_of_month-le cal lm_last),
                      omega (int_laws, first_of_month-le cal today),
                      omega (int_laws, first_of_month-le cal pm_last),
                      refl,
                    )
                    yesterday)))))))
