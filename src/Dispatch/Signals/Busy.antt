-- ===== src/Dispatch/Signals/Busy.antt =====
-- `truck_busy_after` against `is_free_tos`: what takes a truck out of the pool releases its hold.
use tt_aiops_platform.Prelude.{
  ℕ, ◌≡◌, ◌≤◌, refl, true, false, not, Option, none, some, arith, inl, inr, Option-cases,
}
use tt_aiops_platform.Dispatch.Signals.{
  Instant, TosSig, HoldKind, timestamp_millis, after_sent, is_free_tos, truck_busy_after,
}

-- No signal is later than the order sent at `sent_ms`.
pub record IsBefore (sig : TosSig) (sent_ms : ℕ) : Type 0 where
  pub picked_before : (p : Instant) → sig.picked ≡ some p → timestamp_millis p ≤ sent_ms
  pub dis_before : (d : Instant) → sig.dis ≡ some d → timestamp_millis d ≤ sent_ms
  pub listed_before : (a : Instant) → sig.listed_at ≡ some a → timestamp_millis a ≤ sent_ms

-- A signal that takes a freed truck out of the pool releases the hold of an assign order on it,
-- whenever the order was sent.
not-free_tos-busy :
    (sig : TosSig) (f : Instant) (sent_ms : ℕ)
    → sig.free ≡ some f
    → is_free_tos sig ≡ false
    → truck_busy_after (some sig) HoldKind.assign sent_ms ≡ true
unfolding is_free_tos truck_busy_after
not-free_tos-busy sig f sent_ms e h = ground arith

after_sent-false :
    (sent_ms : ℕ) (o : Option Instant)
    → ((t : Instant) → o ≡ some t → timestamp_millis t ≤ sent_ms)
    → after_sent sent_ms o ≡ false
unfolding after_sent
after_sent-false sent_ms none h = refl
after_sent-false sent_ms (some t) h = ground (arith, h t refl)

-- Of a truck with a free event and no signal after the order was sent, the hold of an assign order
-- is released exactly when the truck is not in the pool: the two judgements agree.
pub busy-eq-not_free :
    (sig : TosSig) (f : Instant) (sent_ms : ℕ)
    → sig.free ≡ some f
    → IsBefore sig sent_ms
    → truck_busy_after (some sig) HoldKind.assign sent_ms ≡ not (is_free_tos sig)
unfolding is_free_tos truck_busy_after
busy-eq-not_free sig f sent_ms e b = ground (
  arith,
  after_sent-false sent_ms sig.picked b.picked_before,
  after_sent-false sent_ms sig.dis b.dis_before,
  after_sent-false sent_ms sig.listed_at b.listed_before,
)

-- A dispatch or a listing never releases the hold of a swap order: only a pickup does.
swap-busy_pickup :
    (sig : TosSig) (sent_ms : ℕ)
    → truck_busy_after (some sig) HoldKind.swap sent_ms ≡ true
    → (p : Instant) × (sig.picked ≡ some p)
unfolding truck_busy_after
swap-busy_pickup sig sent_ms h = elim (Option-cases sig.picked) [
  | inl e ↦ absurd (ground arith)
  | inr (p, e) ↦ (p, e)
]
