-- ===== src/Dispatch/Stale.antt =====
-- crates/api/src/livemap.rs: `workpool_stale_reason`, the check that the work list is fresh. A reason
-- is a value with the numbers that its message shows.
use tt_aiops_platform.Prelude.{
  ◌≡◌, refl, ◌↔◌, String, Option, none, some, if◌then◌else◌, Result, ok, err, arith,
}
use tt_aiops_platform.Prelude.Int.{ℤ, pos, leb_ℤ, ◌≤ℤ◌}

pub data StaleReason : Type 0 where
  too_old : ℤ → Option ℤ → StaleReason
  no_record : StaleReason
  query_failed : String → StaleReason

abbrev pub workpool_max_age_s : ℤ
workpool_max_age_s = pos 300

-- The age since the last good extraction and the age of the table, or the error of the query.
unfoldable pub workpool_stale_reason : Result String (Option ℤ × Option ℤ) → Option StaleReason
workpool_stale_reason (ok (some age, table_age)) =
    if leb_ℤ age workpool_max_age_s then none else some (too_old age table_age)
workpool_stale_reason (ok (none, table_age)) = some no_record
workpool_stale_reason (err e) = some (query_failed e)

-- The work list passes for fresh exactly when the query answered with an age of at most the limit:
-- an error, a missing record and an older list all stop the matching.
pub workpool_stale_reason_iff :
    (res : Result String (Option ℤ × Option ℤ))
    → (workpool_stale_reason res ≡ none) ↔ (
        (age : ℤ) × (table_age : Option ℤ) × (res ≡ ok (some age, table_age))
        × (age ≤ℤ workpool_max_age_s))
unfolding workpool_stale_reason
workpool_stale_reason_iff (ok (some age, table_age)) =
    ((λ h. (age, table_age, refl, ground arith)), (λ h. let (a, t, e, le) = h in ground arith))
workpool_stale_reason_iff (ok (none, table_age)) =
    ((λ h. absurd (cc)), (λ h. absurd (ground (arith, h.2))))
workpool_stale_reason_iff (err e) = ((λ h. absurd (cc)), (λ h. absurd (ground (arith, h.2))))
