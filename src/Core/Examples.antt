-- ===== src/Core/Examples.antt =====
-- The theorems on shifts and indicators at concrete values.
use tt_aiops_platform.Prelude.{◌≡◌, ◌↔◌, arith}
use tt_aiops_platform.Prelude.Int.{pos}
use tt_aiops_platform.Core.Shift
use tt_aiops_platform.Core.Shift.Windows.{IsWithin, current_iff}

abbrev last_second : Shift.NaiveDateTime
last_second = record { date = pos 739041; second = 86399 }

current_iff_example :
    (Shift.current last_second ≡ (pos 739041, Shift.evening))
    ↔ IsWithin last_second (Shift.window (pos 739041) Shift.evening)
current_iff_example = current_iff last_second (pos 739041) Shift.evening (omega arith)
