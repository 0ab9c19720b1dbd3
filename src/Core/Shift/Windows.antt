-- ===== src/Core/Shift/Windows.antt =====
-- The windows of the shifts follow each other, and each time lies in the window of its shift only.
use tt_aiops_platform.Prelude.{◌≡◌, ◌<◌, ◌⊎◌, ◌↔◌, refl, ap, string_eq, arith}
use tt_aiops_platform.Prelude.Int.{ℤ, pos, ◌+ℤ◌, ◌-ℤ◌, ◌<ℤ◌, eq_of_parts, +ℤ_parts, -ℤ_parts}
use tt_aiops_platform.Core.Shift
use tt_aiops_platform.Core.Shift.{Shift as S, NaiveDateTime, night, day, evening}

abbrev pub IsBefore : NaiveDateTime → NaiveDateTime → Type 0
IsBefore a b = (a.date <ℤ b.date) ⊎ (a.date ≡ b.date) × (a.second < b.second)

-- From the start of the window on, and before its end.
abbrev pub IsWithin : NaiveDateTime → NaiveDateTime × NaiveDateTime → Type 0
IsWithin now w = ¬ IsBefore now w.0 × IsBefore now w.1

-- A time of day belongs to a shift of a date exactly when it lies in the window of that shift.
pub current_iff :
    (now : NaiveDateTime) (date : ℤ) (shift : S)
    → now.second < 86400
    → (Shift.current now ≡ (date, shift)) ↔ IsWithin now (Shift.window date shift)
unfolding Shift.current Shift.window Shift.start_hour Shift.nominal_end
current_iff now date night lt = ground (arith, eq_of_parts now.date date)
current_iff now date day lt = ground (arith, eq_of_parts now.date date)
current_iff now date evening lt = ground (arith, eq_of_parts now.date date, +ℤ_parts date (pos 1))

-- The window of the shift before ends where the window of the shift starts.
previous-window :
    (date : ℤ) (shift : S)
    → let p = Shift.previous date shift in (Shift.window p.0 p.1).1 ≡ (Shift.window date shift).0
unfolding Shift.previous Shift.window Shift.start_hour Shift.nominal_end
previous-window date night =
    ap (λ d. record { date = d; second = 0 })
      (eq_of_parts (date -ℤ pos 1 +ℤ pos 1) date
        (omega (arith, +ℤ_parts (date -ℤ pos 1) (pos 1), -ℤ_parts date (pos 1))))
previous-window date day = refl
previous-window date evening = refl
