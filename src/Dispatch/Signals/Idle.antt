-- ===== src/Dispatch/Signals/Idle.antt =====
-- When `is_free_tos` calls a truck free.
use tt_aiops_platform.Prelude.{◌≡◌, ◌≤◌, ◌<◌, ◌↔◌, true, false, some, arith, inl, inr, Option-cases}
use tt_aiops_platform.Dispatch.Signals.{
  Instant, TosSig, listed_since_free, dispatched_since_free, is_free_tos,
}

-- The truck became free at `f`, and nothing since then says that it works: no pickup, no dispatch,
-- and a listing only if the terminal opened the truck for dispatch after it.
pub record IsIdleSince (sig : TosSig) (f : Instant) : Type 0 where
  pub freed : sig.free ≡ some f
  pub no_pickup : (p : Instant) → sig.picked ≡ some p → p ≤ f
  pub no_dispatch : (d : Instant) → sig.dis ≡ some d → d ≤ f
  pub listing_over :
      (a : Instant)
      → sig.listed_at ≡ some a
      → f ≤ a
      → (v : Instant) × (sig.avail_since ≡ some v) × (a < v)

-- The witness of a listing that is over.
listing_over_of :
    (sig : TosSig) (a f : Instant)
    → listed_since_free sig f ≡ false
    → sig.listed_at ≡ some a
    → f ≤ a
    → (v : Instant) × (sig.avail_since ≡ some v) × (a < v)
unfolding listed_since_free
listing_over_of sig a f h e le = elim (Option-cases sig.avail_since) [
  | inl none_open ↦ absurd (ground arith)
  | inr (v, open_since) ↦ (v, open_since, ground arith)
]

is_free_tos-IsIdleSince :
    (sig : TosSig) → is_free_tos sig ≡ true → (f : Instant) × IsIdleSince sig f
unfolding is_free_tos
is_free_tos-IsIdleSince sig h = elim (Option-cases sig.free) [
  | inl never ↦ absurd (ground arith)
  | inr (f, freed) ↦ (
    f,
    record {
      freed = freed;
      no_pickup = λ p e. ground arith;
      no_dispatch = λ d e. ground arith;
      listing_over = λ a e le. listing_over_of sig a f (ground arith) e le;
    },
  )
]

listed_since_free-false :
    (sig : TosSig) (f : Instant) → IsIdleSince sig f → listed_since_free sig f ≡ false
unfolding listed_since_free
listed_since_free-false sig f h = elim (Option-cases sig.listed_at) [
  | inl e ↦ ground arith
  | inr (a, e) ↦ ground (arith, h.listing_over a e)
]

IsIdleSince-is_free_tos : (sig : TosSig) (f : Instant) → IsIdleSince sig f → is_free_tos sig ≡ true
unfolding is_free_tos dispatched_since_free
IsIdleSince-is_free_tos sig f h = elim (Option-cases sig.picked) [
  | inl p0 ↦ elim (Option-cases sig.dis) [
    | inl d0 ↦ ground (arith, h.freed, listed_since_free-false sig f h)
    | inr (d, e) ↦ ground (arith, h.freed, h.no_dispatch d e, listed_since_free-false sig f h)
  ]
  | inr (p, pe) ↦ elim (Option-cases sig.dis) [
    | inl d0 ↦ ground (arith, h.freed, h.no_pickup p pe, listed_since_free-false sig f h)
    | inr (d, e) ↦
        ground
          (arith, h.freed, h.no_pickup p pe, h.no_dispatch d e, listed_since_free-false sig f h)
  ]
]

-- A truck is called free exactly when it is idle since some free event.
pub is_free_tos_iff :
    (sig : TosSig) → (is_free_tos sig ≡ true) ↔ ((f : Instant) × IsIdleSince sig f)
is_free_tos_iff sig = (is_free_tos-IsIdleSince sig, λ h. IsIdleSince-is_free_tos sig h.0 h.1)
