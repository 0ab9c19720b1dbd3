-- ===== src/Dispatch.antt =====
-- The dispatch matcher of crates/api/src/livemap.rs: the signals that say whether a truck is free,
-- the holds on sent orders, the wake-up rule, the choice of works, the cover of their slots, the
-- assignment of least cost, the swaps, the shuffle, and what a tick computes with them.
pub mod Signals
mod Examples
mod Plans
pub mod Holds
pub mod Wake
pub mod Due
pub mod Swaps
pub mod Stale
pub mod SoonFree
pub mod Cover
pub mod Assign
pub mod Shuffle
pub mod Tick
