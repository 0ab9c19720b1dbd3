-- ===== src/Core/Shift.antt =====
-- crates/core/src/shift.rs: the three shifts of a day and their windows. A date is a day number, a
-- date and time has the second of the day.
pub mod Windows
pub mod Labels
use tt_aiops_platform.Prelude.{
  ℕ, ◌*◌, ◌/◌, ◌-◌, String, Bool, true, false, Option, none, some, if◌then◌else◌, leb, ◌==◌,
  string_eq,
}
use tt_aiops_platform.Prelude.Int.{ℤ, pos, ◌+ℤ◌, ◌-ℤ◌}

pub data Shift : Type 0 where
  night : Shift
  day : Shift
  evening : Shift

pub record NaiveDateTime : Type 0 where
  pub date : ℤ
  pub second : ℕ

unfoldable pub label : Shift → String
label night = "N"
label day = "D"
label evening = "E"

unfoldable pub from_label : String → Option Shift
from_label s =
    if s == "N"
    then some night
    else if s == "D"
    then some day
    else if s == "E"
    then some evening
    else none

-- The names for display.
unfoldable pub name_en : Shift → String
name_en night = "Night"
name_en day = "Day"
name_en evening = "Evening"

unfoldable pub name_ko : Shift → String
name_ko night = "야간"
name_ko day = "주간"
name_ko evening = "저녁"

unfoldable pub start_hour : Shift → ℕ
start_hour night = 0
start_hour day = 8
start_hour evening = 16

-- `date.and_hms_opt(h, 0, 0)`
abbrev pub at_hour : ℤ → ℕ → NaiveDateTime
at_hour d h = record { date = d; second = h * 3600 }

unfoldable pub current : NaiveDateTime → ℤ × Shift
current now =
    let hour = now.second / 3600 in
    (now.date, if leb hour 7 then night else if leb hour 15 then day else evening)

-- `nominal_end`
unfoldable pub nominal_end : ℤ → Shift → NaiveDateTime
nominal_end d night = at_hour d 8
nominal_end d day = at_hour d 16
nominal_end d evening = at_hour (d +ℤ pos 1) 0

unfoldable pub window : ℤ → Shift → NaiveDateTime × NaiveDateTime
unfolding nominal_end start_hour
window d shift = (at_hour d (start_hour shift), nominal_end d shift)

unfoldable pub previous : ℤ → Shift → ℤ × Shift
previous d night = (d -ℤ pos 1, evening)
previous d day = (d, night)
previous d evening = (d, day)

-- `terminal_offset`, in seconds.
abbrev pub terminal_offset : ℕ
terminal_offset = 8 * 3600

-- An instant of the terminal's clock, which is ahead, as one of UTC; both in microseconds.
unfoldable pub terminal_to_utc : ℕ → ℕ
terminal_to_utc naive = naive - terminal_offset * 1000000
