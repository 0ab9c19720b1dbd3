-- ===== src/Feed/Verdict.antt =====
-- When a tick of fetches counts as failed.
use tt_aiops_platform.Prelude.{◌≡◌, ◌<◌, ◌↔◌, ◌⊎◌, String, Option, ok, arith}
use tt_aiops_platform.Feed.{EtwTally, etw_outcome}

-- A tick passes exactly when a snapshot landed, or nothing failed and some voyage still has a stored
-- snapshot or none was unknown to the gateway.
etw_outcome_iff :
    (t : EtwTally) (first_err : Option String)
    → (etw_outcome t first_err ≡ ok tt)
      ↔ ((0 < t.fetched) ⊎ (t.failed ≡ 0) × ((0 < t.skipped) ⊎ (t.not_found ≡ 0)))
unfolding etw_outcome
etw_outcome_iff t first_err = ground arith
