-- ===== src/Dispatch/Signals.antt =====
-- crates/api/src/livemap.rs: `TosSig`, `is_free_tos`, `dispatched_since_free`, `truck_busy_after`.
-- An instant is a count of microseconds from an origin that is a whole millisecond and not later than
-- any instant at hand; the code only compares instants and takes their milliseconds.
pub mod Idle
pub mod Busy
use tt_aiops_platform.Prelude.{
  ℕ, ◌/◌, String, Bool, true, false, not, ◌&&◌, ◌||◌, Option, none, some, ltb, leb, is_some_and,
  if◌then◌else◌,
}

abbrev pub Instant : Type 0
Instant = ℕ

-- `t.timestamp_millis()`.
abbrev pub timestamp_millis : Instant → ℕ
timestamp_millis t = t / 1000

-- What the terminal system says of one truck.
pub record TosSig : Type 0 where
  pub free : Option Instant
  pub dis : Option Instant
  pub jobtype : Option String
  pub free_jt : Option String
  pub topos : Option String
  pub listed_at : Option Instant
  pub picked : Option Instant
  pub avail_since : Option Instant

pub data HoldKind : Type 0 where
  assign swap : HoldKind

-- The truck is on the dispatch list at or after `f`, and was not opened for dispatch since.
unfoldable pub listed_since_free : TosSig → Instant → Bool
listed_since_free sig f =
    is_some_and sig.listed_at (λ a. leb f a && not (is_some_and sig.avail_since (λ v. ltb a v)))

unfoldable pub dispatched_since_free : TosSig → Instant → Bool
unfolding listed_since_free
dispatched_since_free sig f = is_some_and sig.dis (λ d. ltb f d) || listed_since_free sig f

unfoldable pub is_free_tos : TosSig → Bool
unfolding dispatched_since_free
is_free_tos sig = elim sig.free [
  | none ↦ false
  | some f ↦
      if is_some_and sig.picked (λ p. ltb f p) then false else not (dispatched_since_free sig f)
]

-- `picked > free`, or a pickup with no free event: the truck carries a box.
unfoldable pub loaded : TosSig → Bool
loaded sig = elim sig.picked [
  | none ↦ false
  | some p ↦ elim sig.free [ some f ↦ ltb f p | none ↦ true ]
]

-- The closure `after` of `truck_busy_after`.
unfoldable pub after_sent : ℕ → Option Instant → Bool
after_sent sent_ms t = is_some_and t (λ u. ltb sent_ms (timestamp_millis u))

unfoldable pub busy_by_kind : TosSig → HoldKind → ℕ → Bool
unfolding loaded after_sent dispatched_since_free
busy_by_kind sig HoldKind.assign sent_ms =
    loaded sig
    || (is_some_and sig.free (λ f. dispatched_since_free sig f)
        || (after_sent sent_ms sig.picked
            || (after_sent sent_ms sig.dis || after_sent sent_ms sig.listed_at)))
busy_by_kind sig HoldKind.swap sent_ms = loaded sig || after_sent sent_ms sig.picked

unfoldable pub truck_busy_after : Option TosSig → HoldKind → ℕ → Bool
unfolding busy_by_kind
truck_busy_after none kind sent_ms = false
truck_busy_after (some sig) kind sent_ms = busy_by_kind sig kind sent_ms
