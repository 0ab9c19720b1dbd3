-- ===== src/Core.antt =====
-- crates/core/src: the names of the indicators and the working shifts.
pub mod Kpi
pub mod Shift
mod Examples
