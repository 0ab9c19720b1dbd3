-- ===== src/Core/Kpi.antt =====
-- crates/core/src/kpi.rs: the indicators and their keys.
pub mod Keys
use tt_aiops_platform.Prelude.{
  String, Bool, true, false, Option, none, some, List, [], ◌∷◌, if◌then◌else◌, ◌==◌, string_eq,
}

pub data KpiKey : Type 0 where
  k_util : KpiKey
  k_empty : KpiKey
  k_empty_r : KpiKey
  k_cycle : KpiKey
  k_rtg_q : KpiKey
  k_mph : KpiKey
  k_qc_nomove : KpiKey
  k_qc_tt_wait : KpiKey
  k_qc_tt_wait_gps : KpiKey

abbrev pub all : List KpiKey
all =
    k_util ∷ k_empty ∷ k_empty_r ∷ k_cycle ∷ k_rtg_q ∷ k_mph ∷ k_qc_nomove ∷ k_qc_tt_wait
    ∷ k_qc_tt_wait_gps ∷ []

unfoldable pub as_str : KpiKey → String
as_str k_util = "K_UTIL"
as_str k_empty = "K_EMPTY"
as_str k_empty_r = "K_EMPTY_R"
as_str k_cycle = "K_CYCLE"
as_str k_rtg_q = "K_RTG_Q"
as_str k_mph = "K_MPH"
as_str k_qc_nomove = "K_QC_NOMOVE"
as_str k_qc_tt_wait = "K_QC_TT_WAIT"
as_str k_qc_tt_wait_gps = "K_QC_TT_WAIT_GPS"

-- The names for display.
unfoldable pub name_en : KpiKey → String
name_en k_util = "TT Utilization"
name_en k_empty = "Empty Travel / Job"
name_en k_empty_r = "Empty Travel Ratio"
name_en k_cycle = "TT Cycle Time"
name_en k_rtg_q = "RTG Handover Wait"
name_en k_mph = "QC Moves / Hour"
name_en k_qc_nomove = "QC No-Move Idle"
name_en k_qc_tt_wait = "QC Wait for Truck"
name_en k_qc_tt_wait_gps = "QC Truck-Wait (GPS)"

unfoldable pub name_ko : KpiKey → String
name_ko k_util = "TT 가동률"
name_ko k_empty = "공차 이동거리/작업"
name_ko k_empty_r = "공차 이동 비율"
name_ko k_cycle = "TT 사이클 타임"
name_ko k_rtg_q = "야드(RTG) 핸드오버 대기"
name_ko k_mph = "QC 시간당 처리량"
name_ko k_qc_nomove = "QC 무브 공백"
name_ko k_qc_tt_wait = "QC 트럭 대기"
name_ko k_qc_tt_wait_gps = "QC 트럭대기(GPS)"

unfoldable pub unit_of : KpiKey → String
unit_of k_util = "%"
unit_of k_empty = "km/Job"
unit_of k_empty_r = "%"
unit_of k_cycle = "s"
unit_of k_rtg_q = "s"
unit_of k_mph = "move/hr"
unit_of k_qc_nomove = "s"
unit_of k_qc_tt_wait = "s"
unit_of k_qc_tt_wait_gps = "QC"

unfoldable pub higher_is_better : KpiKey → Bool
higher_is_better k_util = true
higher_is_better k_mph = true
higher_is_better _ = false

-- `into_iter().find`
unfoldable pub find_key : String → List KpiKey → Option KpiKey
unfolding as_str
find_key s [] = none
find_key s (k ∷ ks) = let rest = find_key s ks in if as_str k == s then some k else rest

unfoldable pub from_str : String → Option KpiKey
from_str s = find_key s all
