-- ===== src/Core/Shift/Labels.antt =====
-- The letters name the shifts one to one.
use tt_aiops_platform.Prelude.{◌≡◌, ◌↔◌, String, some, string_eq, eq_iff, arith}
use tt_aiops_platform.Core.Shift
use tt_aiops_platform.Core.Shift.{Shift as S, night, day, evening}

-- A text reads as a shift exactly when it is the letter of that shift.
from_label_iff :
    (s : String) (shift : S) → (Shift.from_label s ≡ some shift) ↔ (Shift.label shift ≡ s)
unfolding Shift.from_label Shift.label
from_label_iff s night = ground (
  arith,
  eq_iff s "N",
  eq_iff s "D",
  eq_iff s "E",
  eq_iff "D" "N",
  eq_iff "E" "N",
  eq_iff "E" "D",
)
from_label_iff s day = ground (
  arith,
  eq_iff s "N",
  eq_iff s "D",
  eq_iff s "E",
  eq_iff "D" "N",
  eq_iff "E" "N",
  eq_iff "E" "D",
)
from_label_iff s evening = ground (
  arith,
  eq_iff s "N",
  eq_iff s "D",
  eq_iff s "E",
  eq_iff "D" "N",
  eq_iff "E" "N",
  eq_iff "E" "D",
)
