-- ===== src/Core/Kpi/Keys.antt =====
-- The keys name the indicators one to one.
use tt_aiops_platform.Prelude.{
  String, ◌≡◌, ◌↔◌, refl, subst, some, List, [], ◌∷◌, ◌==◌, string_eq, eq_iff, arith, Bool-cases,
  inl, inr,
}
use tt_aiops_platform.Core.Kpi

find_key_sound :
    (s : String) (k : Kpi.KpiKey) (ks : List Kpi.KpiKey)
    → Kpi.find_key s ks ≡ some k
    → Kpi.as_str k ≡ s
unfolding Kpi.find_key
find_key_sound s k [] h = cc
find_key_sound s k (j ∷ ks) h = elim (Bool-cases (Kpi.as_str j == s)) [
  | inl e ↦ ground (arith, eq_iff (Kpi.as_str j) s)
  | inr e ↦ find_key_sound s k ks (rw (e, Kpi.find_key) at h)
]

from_str-as_str : (k : Kpi.KpiKey) → Kpi.from_str (Kpi.as_str k) ≡ some k
unfolding Kpi.from_str Kpi.find_key Kpi.as_str
from_str-as_str Kpi.k_util = refl
from_str-as_str Kpi.k_empty = refl
from_str-as_str Kpi.k_empty_r = refl
from_str-as_str Kpi.k_cycle = refl
from_str-as_str Kpi.k_rtg_q = refl
from_str-as_str Kpi.k_mph = refl
from_str-as_str Kpi.k_qc_nomove = refl
from_str-as_str Kpi.k_qc_tt_wait = refl
from_str-as_str Kpi.k_qc_tt_wait_gps = refl

-- A text reads as an indicator exactly when it is the key of that indicator.
from_str_iff : (s : String) (k : Kpi.KpiKey) → (Kpi.from_str s ≡ some k) ↔ (Kpi.as_str k ≡ s)
unfolding Kpi.from_str
from_str_iff s k =
    (find_key_sound s k Kpi.all, (λ e. subst (λ t. Kpi.from_str t ≡ some k) e (from_str-as_str k)))
