-- ===== src/TosAvail.antt =====
-- crates/extractor/src/tos_avail.rs: the trucks that the terminal system holds for dispatchable,
-- rebuilt by replaying committed changes between two snapshots.
pub mod State
pub mod Txn
pub mod Diff
pub mod Replay
pub mod Texts
pub mod Fetch
pub mod Saved
mod Examples
mod Answers
