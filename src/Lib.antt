-- ===== src/Lib.antt =====
-- The verification library of the terminal-truck platform.
--
-- The platform takes snapshots of the terminal operating system and the positions of its trucks,
-- and recommends which truck drives to which work. Five parts of it are modelled.
--
-- * Dispatch models the matcher of crates/api/src/livemap.rs. A tick of the matcher waits until the
--   work list or a free event lands (Dispatch/Wake: `should_wake`, `combine_wake`,
--   `advance_free_seen`, `wait_for_workpool_landing`), passes the freshness gate (Dispatch/Stale:
--   `workpool_stale_reason`), judges which trucks are free (Dispatch/Signals: `is_free_tos`,
--   `dispatched_since_free`, `truck_busy_after`) or will be (Dispatch/SoonFree:
--   `soon_free_pred_bucket`, `soon_free_quantile`), chooses the works by deadline (Dispatch/Due:
--   `allocate_due`) and covers their slots with trucks (Dispatch/Cover: `deadline_cover`,
--   `try_slot`), sends orders and keeps trucks on the orders sent until the terminal system shows
--   them (Dispatch/Holds: `edge_allowed_by_hold`, `apply_written`, `release_held`, `restore_holds`,
--   and the rows of new orders in `spawn_stage2_shadow`), and swaps the destinations of trucks
--   under way (Dispatch/Swaps: `swap_is_frozen`, `swap_makes_late`, `pick_swaps`). Dispatch/Shuffle
--   has the generator and the shuffle of the fair comparison (`xorshift`, `shuffle`).
-- * Dispatch/Assign models `hungarian` and, in Dispatch/Assign/Slots, `assign_slots` of the same
--   file: the covered slots and the trucks are the rows and columns of a matrix of costs, and a pair
--   without an edge costs `FORBIDDEN_COST`. The proof follows the algorithm: the search over the
--   columns (Assign/Scan), the shift of the potentials (Assign/Shift, Assign/Moved), what a search
--   keeps (Assign/Marks, Assign/Marked, Assign/Grown), the way back (Assign/Augment), the rows placed
--   (Assign/Placed), the answer (Assign/Answer), weak duality (Assign/Weights, Assign/Dual,
--   Assign/Bounds), and the two together (Assign/Optimal). For `assign_slots` there are the table of
--   costs (Slots/Least, Slots/Prices), the pairs (Slots/Pairs), and slots that can all be served
--   (Slots/Served, Slots/Full).
-- * Dispatch/Tick models what a tick of `spawn_stage2_shadow` computes between its queries, in the
--   order of the source: the works with a place and a time (Dispatch/Tick), their departure tiers
--   (Tick/Tiers), which trucks are free or soon free (Tick/Trucks), the due slots and the choice of
--   works (Tick/Pool, with `allocate_due`), the edges and the matrix of arrivals (Tick/Edges, with
--   `edge_allowed_by_hold`), the greedy baseline (Tick/Greedy), and the cover, the assignment, its
--   score and the pairs for the new orders (Tick/Match, with `deadline_cover`, `assign_slots` and
--   the rows of Dispatch/Holds). Before them the swap stage swaps destinations of trucks under way,
--   unless that makes a box late, and sends the orders for it (Tick/Swapping, with `pick_swaps`,
--   `swap_makes_late` and `apply_written`). A loop of the function is a definition over the rest of its list.
-- * TosAvail models crates/extractor/src/tos_avail.rs, which rebuilds between two snapshots when
--   each truck was on the dispatch list: the list itself (TosAvail/State: `State::free_set`), one
--   commit of job changes (TosAvail/Txn: `apply_txn`), the transitions between two lists
--   (TosAvail/Diff: `diff_into`, `step_ts`) and the replay (TosAvail/Replay: `replay` with its
--   loops and its check against the new snapshot). A tick reads the snapshot and the changes from
--   the rows of a query (TosAvail/Fetch: `parse_fetch`, with TosAvail/Texts), replays from the
--   anchor that the last tick saved, and saves the next one (TosAvail/Saved: `anchor_to_json`,
--   `anchor_from_json`).
-- * Periods models crates/api/src/periods.rs: the range of a named period with the one before it
--   (`resolve`), and the buckets of days, weeks and months, on `first_of_month` and `next_month`
--   (Periods/Months). Periods/Gregorian builds the Gregorian calendar, which has all that is asked of
--   a calendar there.
-- * Feed models parts of crates/extractor/src/workpool.rs: the split of the merged rows of a tick
--   (`split_pool_tick`) and the verdict on the fetches of crane times (`etw_outcome`).
-- * Core models crates/core/src/kpi.rs (Core/Kpi) and crates/core/src/shift.rs (Core/Shift).
--
-- Prelude holds what they share: Boolean tests, lists by native numbers, association lists for hash
-- maps, sets of texts, a stable sort, integers. The names of the definitions are those of the
-- source; a closure, a loop or a match of a long function is a definition of its own that says so.
--
-- Conventions. A mutable argument is an argument and a component of the result. A time is a count
-- of microseconds from an origin before all times at hand (in Dispatch/Wake also nanoseconds of
-- waiting; in Core/Shift the second of the day). The order of an association list stands for the
-- iteration order of a hash map. Signed 64-bit values are integers where they can be negative; they
-- count seconds, milliseconds and trucks and stay far from the bounds, so machine overflow is not
-- modelled.
--
-- Bounds. `wait_for_workpool_landing` runs on rounds: 76 are enough, since the polls are 2 s apart
-- and the longest wait is 150 s. `try_slot` runs on fuel, one more than the trucks: each deeper
-- call has seen one more truck. The two inner loops of `hungarian` run on fuel, one more than the
-- columns: each round of the first uses one more column, and the way back is no longer than the
-- columns used. All give `none` when the fuel runs out; `hungarian` also where its assertion fails.
-- The costs stay below a quarter of the largest 64-bit number, the start value of its minima.
--
-- Parameters. The work list's lookup and the busy test of `release_held`, the drives `cross` of
-- `pick_swaps`, the drive `cost` of an empty truck, the coordinates, the reliability table, the order
-- of the 32-bit floats, the reading of a date of 14 digits, the fields of a date and its construction
-- (a record with the order of dates and the first days of months as its laws), and the answers of the
-- database are arguments.
--
-- Not modelled: SQL and its execution, logging, HTTP handlers, JSON, the web front end,
-- floating-point geometry and statistics, and so far the flow solver of the benchmark,
-- the road graph, the live map of positions, the deadlines of the work pool and the
-- other extractor jobs.
pub mod Prelude
pub mod Dispatch
pub mod TosAvail
pub mod Core
pub mod Periods
pub mod Feed
