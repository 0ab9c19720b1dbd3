-- ===== src/Dispatch/Wake/Waiting.antt =====
-- The whole wait: it ends within 76 polls, and it ends for a reason.
use tt_aiops_platform.Prelude.{
  ◌≢◌, ◌⊎◌, ◌∙◌, ℕ, zero, suc, ◌+◌, ◌*◌, ◌<◌, ◌≤◌, ◌≡◌, ◌↔◌, refl, sym, subst, inl, inr, Bool,
  false, Option, none, some, arith,
}
use native.Mathlib.Decide.{dec_lt}
use tt_aiops_platform.Dispatch.Signals.{Instant}
use tt_aiops_platform.Dispatch.Wake.{
  WakeSrc, WakeStep, FreeSeen, FreshRow, Poll, Woken, wake_poll_ms, wake_max_wait_ms, ns_of_ms,
  heartbeat, should_wake, judge, combine_wake, gate_of, free_landed_of, woken_of, advance_free_seen,
  advance_one, wait_for_workpool_landing,
}
use tt_aiops_platform.Dispatch.Wake.Steps.{LandsIn, Justified, of-LandsIn, judge-Justified}

WakeStep-cases :
    (w : WakeStep) → ((src : WakeSrc) × (w ≡ WakeStep.wake src)) ⊎ (w ≡ WakeStep.keep_waiting)
WakeStep-cases (WakeStep.wake src) = inl (src, refl)
WakeStep-cases WakeStep.keep_waiting = inr refl

-- At the longest wait a round wakes, whatever has landed.
judge-late :
    (wof : Bool) (seen : Option Instant) (free : FreeSeen) (p : Poll)
    → ns_of_ms wake_max_wait_ms ≤ p.elapsed
    → judge wof seen free p ≢ WakeStep.keep_waiting
unfolding judge combine_wake should_wake heartbeat
judge-late wof seen free p late = ground arith

module _ (polls : ℕ → Poll) (wof : Bool) where
  abbrev wait : ℕ → ℕ → Option Instant → FreeSeen → Option Woken
  wait rounds i seen free = wait_for_workpool_landing rounds polls i seen free wof

  wait_wakes :
      (rounds i : ℕ) (seen : Option Instant) (free : FreeSeen) (src : WakeSrc)
      → judge wof seen free (polls i) ≡ WakeStep.wake src
      → wait (suc rounds) i seen free ≡ some (woken_of src seen free (polls i))
  unfolding wait_for_workpool_landing
  wait_wakes rounds i seen free src e = rw (e, wait_for_workpool_landing)

  wait_waits :
      (rounds i : ℕ) (seen : Option Instant) (free : FreeSeen)
      → judge wof seen free (polls i) ≡ WakeStep.keep_waiting
      → wait (suc rounds) i seen free
        ≡ wait rounds (suc i) seen (advance_free_seen free (free_landed_of (polls i)) false)
  unfolding wait_for_workpool_landing
  wait_waits rounds i seen free e = rw (e, wait_for_workpool_landing)

  wait-ends :
      (rounds i : ℕ) (seen : Option Instant) (free : FreeSeen)
      → ((j : ℕ) → ns_of_ms (j * wake_poll_ms) ≤ (polls j).elapsed)
      → 75 < rounds + i
      → i ≤ 75
      → (w : Woken) × (wait rounds i seen free ≡ some w)
  wait-ends zero i seen free slept enough small = absurd (omega arith)
  wait-ends (suc rounds) i seen free slept enough small =
      elim (WakeStep-cases (judge wof seen free (polls i))) [
        | inl (src, e) ↦ (woken_of src seen free (polls i), wait_wakes rounds i seen free src e)
        | inr e ↦
            let below : i < 75 = elim (dec_lt i 75) [
              | yes h ↦ h
              | no n ↦ absurd (judge-late wof seen free (polls i) (omega (arith, slept i)) e)
            ] in
            let (w, ends) =
              wait-ends rounds (suc i) seen
                (advance_free_seen free (free_landed_of (polls i)) false) slept (omega arith)
                (omega arith) in
            (w, wait_waits rounds i seen free e ∙ ends)
      ]

-- The known baseline of a source at the poll `j` of a wait from the poll `i`: that from before the
-- wait, or without one the first instant that an earlier poll of the wait has seen.
abbrev pub IsBaseline :
    (FreshRow → Option Instant) → (ℕ → Poll) → ℕ → ℕ → Option Instant → Instant → Type 0
IsBaseline at polls i j old s =
    (old ≡ some s)
    ⊎ (old ≡ none)
      × ((k : ℕ) × (i ≤ k)
          × (k < j)
          × LandsIn at (polls k) s
          × ((m : ℕ) (l : Instant) → i ≤ m → m < k → ¬ LandsIn at (polls m) l))

-- A poll that did not wake fills in the baselines that are missing.
IsBaseline-fill :
    (at : FreshRow → Option Instant) (polls : ℕ → Poll) (i j : ℕ) (old landed : Option Instant)
    (s : Instant)
    → ((l : Instant) → (landed ≡ some l) ↔ LandsIn at (polls i) l)
    → suc i ≤ j
    → IsBaseline at polls (suc i) j (advance_one old landed false) s
    → IsBaseline at polls i j old s
unfolding advance_one
IsBaseline-fill at polls i j none none s reads lt (inl e) = absurd (cc)
IsBaseline-fill at polls i j none none s reads lt (inr (e, (k, le, before, lands, first))) = inr (
  refl,
  (
    k,
    omega arith,
    before,
    lands,
    λ m l a b q. elim (dec_lt i m) [
      | yes h ↦ first m l h b q
      | no n ↦
          let same : m ≡ i = omega arith in
          let found = (reads l).1 (subst (λ x. LandsIn at (polls x) l) same q) in cc
    ],
  ),
)
IsBaseline-fill at polls i j none (some l) s reads lt (inl e) =
    inr (refl, (i, omega arith, lt, (reads s).0 e, λ m x a b q. omega arith))
IsBaseline-fill at polls i j none (some l) s reads lt (inr (e, r)) = absurd (cc)
IsBaseline-fill at polls i j (some o) none s reads lt (inl e) = inl e
IsBaseline-fill at polls i j (some o) none s reads lt (inr (e, r)) = absurd (cc)
IsBaseline-fill at polls i j (some o) (some l) s reads lt (inl e) = inl e
IsBaseline-fill at polls i j (some o) (some l) s reads lt (inr (e, r)) = absurd (cc)

module _ (wof : Bool) (p : Poll) (seen seen' : Option Instant)
    {Load Discharge Load' Discharge' : Instant → Type 0} (free' : FreeSeen)
    (f : (s : Instant) → Load s → Load' s) (g : (s : Instant) → Discharge s → Discharge' s) where
  Justified-map :
      (src : WakeSrc)
      → Justified src wof p seen seen' Load Discharge free'
      → Justified src wof p seen seen' Load' Discharge' free'
  Justified-map WakeSrc.startup h = h
  Justified-map WakeSrc.landing h = h
  Justified-map WakeSrc.fallback h = h
  Justified-map WakeSrc.free (on, inl (s, l, base, lands, lt, new)) =
      (on, inl (s, l, f s base, lands, lt, new))
  Justified-map WakeSrc.free (on, inr (s, l, base, lands, lt, new)) =
      (on, inr (s, l, g s base, lands, lt, new))

-- The poll that a wait from the poll `i` ended at: its answer justifies the reason, and the gate reads
-- the same answer.
abbrev pub EndedBy : (ℕ → Poll) → Bool → ℕ → Option Instant → FreeSeen → Woken → Type 0
EndedBy polls wof i seen free w =
    (j : ℕ) × (i ≤ j)
    × Justified w.src wof (polls j) seen w.seen (IsBaseline (λ r. r.load) polls i j free.load)
        (IsBaseline (λ r. r.discharge) polls i j free.discharge) w.free_seen
    × (w.gate ≡ gate_of (polls j))

woken_gate :
    (src : WakeSrc) (seen : Option Instant) (free : FreeSeen) (p : Poll)
    → (woken_of src seen free p).gate ≡ gate_of p
unfolding woken_of
woken_gate src seen free p = refl

woken_src :
    (src : WakeSrc) (seen : Option Instant) (free : FreeSeen) (p : Poll)
    → (woken_of src seen free p).src ≡ src
unfolding woken_of
woken_src src seen free p = refl

judge-EndedBy :
    (polls : ℕ → Poll) (wof : Bool) (i : ℕ) (seen : Option Instant) (free : FreeSeen)
    (src : WakeSrc)
    → judge wof seen free (polls i) ≡ WakeStep.wake src
    → EndedBy polls wof i seen free (woken_of src seen free (polls i))
judge-EndedBy polls wof i seen free src e =
    let w = woken_of src seen free (polls i) in
    let Load = IsBaseline (λ r. r.load) polls i i free.load in
    let Discharge = IsBaseline (λ r. r.discharge) polls i i free.discharge in
    (
      i,
      omega arith,
      subst (λ r. Justified r wof (polls i) seen w.seen Load Discharge w.free_seen)
          (sym (woken_src src seen free (polls i)))
          (Justified-map wof (polls i) seen w.seen w.free_seen (λ s q. inl q) (λ s q. inl q) src
            (judge-Justified wof seen free (polls i) src e)),
      woken_gate src seen free (polls i),
    )

fill-EndedBy :
    (polls : ℕ → Poll) (wof : Bool) (i : ℕ) (seen : Option Instant) (free : FreeSeen) (w : Woken)
    → EndedBy polls wof (suc i) seen (advance_free_seen free (free_landed_of (polls i)) false) w
    → EndedBy polls wof i seen free w
unfolding advance_free_seen
fill-EndedBy polls wof i seen free w (j, le, why, gate) =
    let landed = free_landed_of (polls i) in
    (
      j,
      omega arith,
      Justified-map wof (polls j) seen w.seen w.free_seen
          (λ s.
            IsBaseline-fill (λ r. r.load) polls i j free.load landed.load s
              (λ l. (of-LandsIn (polls i) l).0) le)
          (λ s.
            IsBaseline-fill (λ r. r.discharge) polls i j free.discharge landed.discharge s
              (λ l. (of-LandsIn (polls i) l).1) le)
          w.src why,
      gate,
    )

-- A wait that ends did so at a poll whose answer justifies the reason: the answer has the first landing
-- of the work list, or a newer one than the baseline; or free events wake and the answer has a newer
-- event of a source than its baseline, which is that from before the wait or the first that the wait
-- has seen; or the longest wait is over at that poll. A new instant of the first three becomes the
-- baseline, and the freshness gate reads the same answer.
pub wait-EndedBy :
    (polls : ℕ → Poll) (wake_on_free : Bool) (rounds i : ℕ) (seen : Option Instant)
    (free : FreeSeen) (w : Woken)
    → wait_for_workpool_landing rounds polls i seen free wake_on_free ≡ some w
    → EndedBy polls wake_on_free i seen free w
unfolding wait_for_workpool_landing
wait-EndedBy polls wof zero i seen free w h = absurd (cc)
wait-EndedBy polls wof (suc rounds) i seen free w h =
    elim (WakeStep-cases (judge wof seen free (polls i))) [
      | inl (src, e) ↦
          subst (EndedBy polls wof i seen free) (cc (wait_wakes polls wof rounds i seen free src e))
            (judge-EndedBy polls wof i seen free src e)
      | inr e ↦ fill-EndedBy polls wof i seen free w (
          wait-EndedBy polls wof rounds (suc i) seen
            (advance_free_seen free (free_landed_of (polls i)) false) w
            (cc (wait_waits polls wof rounds i seen free e)))
    ]

-- Every poll comes at least one polling interval after the one before, so the wait ends within 76
-- polls: the heartbeat is met at the latest.
pub wait-total :
    (polls : ℕ → Poll) (wake_on_free : Bool) (seen : Option Instant) (free : FreeSeen)
    → ((j : ℕ) → ns_of_ms (j * wake_poll_ms) ≤ (polls j).elapsed)
    → (w : Woken) × (wait_for_workpool_landing 76 polls 0 seen free wake_on_free ≡ some w)
wait-total polls wof seen free slept =
    wait-ends polls wof 76 0 seen free slept (omega arith) (omega arith)
