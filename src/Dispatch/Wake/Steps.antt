-- ===== src/Dispatch/Wake/Steps.antt =====
-- The judgement of one round of the wait, branch by branch.
use tt_aiops_platform.Prelude.{
  ℕ, ◌<◌, ◌≤◌, ◌≡◌, ◌↔◌, refl, sym, subst, ltb, ltb→lt, ◌&&◌, ◌⊎◌, inl, inr, Bool, true, false,
  Option, none, some, arith, Bool-cases, Option-cases, Result-cases, ok,
}
use tt_aiops_platform.Dispatch.Signals.{Instant}
use tt_aiops_platform.Dispatch.Wake.{
  WakeSrc, WakeStep, FreeSeen, FreshRow, Poll, wake_max_wait_ms, ns_of_ms, heartbeat, should_wake,
  judge, combine_wake, free_advanced, any_free_advanced, landed_of, free_landed_of, woken_of,
  advance_seen, advance_free_seen, advance_one,
}

-- The answer of the query at `p` has the instant `l` in the field `at`.
abbrev pub LandsIn : (FreshRow → Option Instant) → Poll → Instant → Type 0
LandsIn at p l = (r : FreshRow) × (p.row ≡ ok r) × (at r ≡ some l)

-- A source whose known baselines are those of `Base` has landed something newer by the answer at `p`,
-- and this is the new baseline.
abbrev pub IsNewer :
    (Instant → Type 0) → (FreshRow → Option Instant) → Poll → Option Instant → Type 0
IsNewer Base at p new =
    (s : Instant) × (l : Instant) × Base s × LandsIn at p l × (s < l) × (new ≡ some l)

-- What a reason to wake stands for at the poll `p`, with the baseline of the work list before, the
-- known baselines of the two sources of free events, and the baselines after.
abbrev pub Justified :
    WakeSrc
    → Bool
    → Poll
    → Option Instant
    → Option Instant
    → (Instant → Type 0)
    → (Instant → Type 0)
    → FreeSeen
    → Type 0
Justified WakeSrc.startup wof p seen seen' Load Discharge free' =
    (l : Instant) × (seen ≡ none) × LandsIn (λ r. r.landed) p l × (seen' ≡ some l)
Justified WakeSrc.landing wof p seen seen' Load Discharge free' =
    (s : Instant) × (l : Instant) × (seen ≡ some s)
    × LandsIn (λ r. r.landed) p l
    × (s < l)
    × (seen' ≡ some l)
Justified WakeSrc.fallback wof p seen seen' Load Discharge free' =
    ns_of_ms wake_max_wait_ms ≤ p.elapsed
Justified WakeSrc.free wof p seen seen' Load Discharge free' =
    (wof ≡ true)
    × (IsNewer Load (λ r. r.load) p free'.load
        ⊎ IsNewer Discharge (λ r. r.discharge) p free'.discharge)

landed_of-LandsIn : (p : Poll) (l : Instant) → landed_of p ≡ some l → LandsIn (λ r. r.landed) p l
unfolding landed_of
landed_of-LandsIn p l h = elim (Result-cases p.row) [
  | inl (r, e) ↦ (r, e, rw (e, landed_of) at h)
  | inr (x, e) ↦ (let no : none ≡ some l = rw (e, landed_of) at h in absurd (cc))
]

load-LandsIn :
    (p : Poll) (l : Instant) → (free_landed_of p).load ≡ some l → LandsIn (λ r. r.load) p l
unfolding free_landed_of
load-LandsIn p l h = elim (Result-cases p.row) [
  | inl (r, e) ↦ (r, e, rw (e, free_landed_of) at h)
  | inr (x, e) ↦ (let no : none ≡ some l = rw (e, free_landed_of) at h in absurd (cc))
]

discharge-LandsIn :
    (p : Poll) (l : Instant)
    → (free_landed_of p).discharge ≡ some l
    → LandsIn (λ r. r.discharge) p l
unfolding free_landed_of
discharge-LandsIn p l h = elim (Result-cases p.row) [
  | inl (r, e) ↦ (r, e, rw (e, free_landed_of) at h)
  | inr (x, e) ↦ (let no : none ≡ some l = rw (e, free_landed_of) at h in absurd (cc))
]

pub of-LandsIn :
    (p : Poll) (l : Instant)
    → ((free_landed_of p).load ≡ some l ↔ LandsIn (λ r. r.load) p l)
      × ((free_landed_of p).discharge ≡ some l ↔ LandsIn (λ r. r.discharge) p l)
unfolding free_landed_of
of-LandsIn p l = (
  (load-LandsIn p l, (λ (r, e, q). rw (e, free_landed_of) q)),
  (discharge-LandsIn p l, (λ (r, e, q). rw (e, free_landed_of) q)),
)

-- A landing that is newer than the baseline becomes the baseline.
free_advanced_newer :
    (old landed : Option Instant)
    → free_advanced old landed ≡ true
    → (s : Instant) × (l : Instant) × (old ≡ some s)
      × (landed ≡ some l)
      × (s < l)
      × (advance_one old landed true ≡ some l)
unfolding free_advanced advance_one
free_advanced_newer none landed h = absurd (cc)
free_advanced_newer (some s) none h = absurd (cc)
free_advanced_newer (some s) (some l) h = (s, l, refl, refl, ground arith, refl)

any_free_advanced-IsNewer :
    (free : FreeSeen) (p : Poll)
    → any_free_advanced free (free_landed_of p) ≡ true
    → let free' = advance_free_seen free (free_landed_of p) true in
      IsNewer (λ s. free.load ≡ some s) (λ r. r.load) p free'.load
      ⊎ IsNewer (λ s. free.discharge ≡ some s) (λ r. r.discharge) p free'.discharge
unfolding any_free_advanced advance_free_seen
any_free_advanced-IsNewer free p h =
    let landed = free_landed_of p in
    elim (Bool-cases (free_advanced free.load landed.load)) [
      | inl e ↦
          let (s, l, base, lands, lt, new) = free_advanced_newer free.load landed.load e in
          inl (s, l, base, load-LandsIn p l lands, lt, new)
      | inr e ↦
          let (s, l, base, lands, lt, new) =
            free_advanced_newer free.discharge landed.discharge (ground arith) in
          inr (s, l, base, discharge-LandsIn p l lands, lt, new)
    ]

heartbeat_fallback :
    (waited : ℕ) (src : WakeSrc)
    → heartbeat waited ≡ WakeStep.wake src
    → (src ≡ WakeSrc.fallback) × (ns_of_ms wake_max_wait_ms ≤ waited)
unfolding heartbeat
heartbeat_fallback waited src h = ground arith

src_of_wake : {a b : WakeSrc} → WakeStep.wake a ≡ WakeStep.wake b → a ≡ b
src_of_wake h = cc

no_landing :
    (seen : Option Instant) (waited : ℕ) (step : WakeStep)
    → should_wake seen none waited ≡ step
    → heartbeat waited ≡ step
unfolding should_wake
no_landing none waited step h = h
no_landing (some s) waited step h = h

-- What `should_wake` stands for.
should_wake-Justified :
    (wof : Bool) (seen : Option Instant) (p : Poll) (src : WakeSrc)
    (Load Discharge : Instant → Type 0) (free' : FreeSeen)
    → should_wake seen (landed_of p) p.elapsed ≡ WakeStep.wake src
    → Justified src wof p seen (advance_seen seen (landed_of p)) Load Discharge free'
unfolding should_wake advance_seen
should_wake-Justified wof seen p src Load Discharge free' h = elim (Option-cases (landed_of p)) [
  | inl e ↦ late (no_landing seen p.elapsed (WakeStep.wake src) (rw e at h))
  | inr (l, e) ↦ elim (Option-cases seen) [
    | inl k ↦
        let first : WakeStep.wake WakeSrc.startup ≡ WakeStep.wake src =
          rw (e, k, should_wake) at h in
        because WakeSrc.startup (src_of_wake first) (l, k, landed_of-LandsIn p l e, rw e refl)
    | inr (s, k) ↦ elim (Bool-cases (ltb s l)) [
      | inl newer ↦
          let moved : WakeStep.wake WakeSrc.landing ≡ WakeStep.wake src =
            rw (e, k, newer, should_wake) at h in
          because WakeSrc.landing (src_of_wake moved)
            (s, l, k, landed_of-LandsIn p l e, ltb→lt s l newer, rw e refl)
      | inr older ↦ late (rw (e, k, older, should_wake) at h)
    ]
  ]
]
  where
    Because : WakeSrc → Type 0
    Because r = Justified r wof p seen (advance_seen seen (landed_of p)) Load Discharge free'

    because : (r : WakeSrc) → r ≡ src → Because r → Because src
    because r e b = subst Because e b

    late : heartbeat p.elapsed ≡ WakeStep.wake src → Because src
    late k =
        let (e, waited) = heartbeat_fallback p.elapsed src k in
        because WakeSrc.fallback (sym e) waited

-- The reason of a combined step is that of the work list's step, or a free event.
combine_wake-cases :
    (wp : WakeStep) (free_new : Bool) (src : WakeSrc)
    → combine_wake wp free_new ≡ WakeStep.wake src
    → (wp ≡ WakeStep.wake src) ⊎ ((src ≡ WakeSrc.free) × (free_new ≡ true))
unfolding combine_wake
combine_wake-cases (WakeStep.wake WakeSrc.startup) free_new src h = inl h
combine_wake-cases (WakeStep.wake WakeSrc.landing) free_new src h = inl h
combine_wake-cases wp free_new src h = ground arith

-- A round that wakes the matcher has its reason in the answer: the work list's landing moved forward
-- or is the first, a source of free events moved forward, or the longest wait is over.
pub judge-Justified :
    (wof : Bool) (seen : Option Instant) (free : FreeSeen) (p : Poll) (src : WakeSrc)
    → judge wof seen free p ≡ WakeStep.wake src
    → let w = woken_of src seen free p in
      Justified src wof p seen w.seen
        (λ s. free.load ≡ some s)
        (λ s. free.discharge ≡ some s)
        w.free_seen
unfolding judge woken_of
judge-Justified wof seen free p src h =
    let Load : Instant → Type 0 = λ s. free.load ≡ some s in
    let Discharge : Instant → Type 0 = λ s. free.discharge ≡ some s in
    let free' = advance_free_seen free (free_landed_of p) true in
    let free_new = wof && any_free_advanced free (free_landed_of p) in
    elim (combine_wake-cases (should_wake seen (landed_of p) p.elapsed) free_new src h) [
      | inl by_list ↦ should_wake-Justified wof seen p src Load Discharge free' by_list
      | inr (e, new) ↦
          subst (λ r. Justified r wof p seen (advance_seen seen (landed_of p)) Load Discharge free')
            (sym e) (ground arith, any_free_advanced-IsNewer free p (ground arith))
    ]

heartbeat_short :
    (waited : ℕ) → waited < ns_of_ms wake_max_wait_ms → heartbeat waited ≡ WakeStep.keep_waiting
unfolding heartbeat
heartbeat_short waited h = ground arith

should_wake_again :
    (seen landed : Option Instant) (waited : ℕ)
    → waited < ns_of_ms wake_max_wait_ms
    → should_wake (advance_seen seen landed) landed waited ≡ WakeStep.keep_waiting
unfolding should_wake advance_seen
should_wake_again none none waited h = heartbeat_short waited h
should_wake_again (some s) none waited h = heartbeat_short waited h
should_wake_again none (some l) waited h = ground (arith, heartbeat_short waited h)
should_wake_again (some s) (some l) waited h = ground (arith, heartbeat_short waited h)

free_advanced_again : (s l : Option Instant) → free_advanced (advance_one s l true) l ≡ false
unfolding free_advanced advance_one
free_advanced_again none none = refl
free_advanced_again (some s) none = refl
free_advanced_again none (some l) = ground arith
free_advanced_again (some s) (some l) = ground arith

landed_of_row : (p q : Poll) → q.row ≡ p.row → landed_of q ≡ landed_of p
unfolding landed_of
landed_of_row p q e = ground arith

free_landed_of_row : (p q : Poll) → q.row ≡ p.row → free_landed_of q ≡ free_landed_of p
unfolding free_landed_of
free_landed_of_row p q e = ground arith

-- What woke the matcher does not wake it again: on the same answer of the query it waits, whatever
-- the reason was, until the longest wait is over.
pub woken-waits :
    (wake_on_free : Bool) (src : WakeSrc) (seen : Option Instant) (free : FreeSeen) (p q : Poll)
    → q.row ≡ p.row
    → q.elapsed < ns_of_ms wake_max_wait_ms
    → let w = woken_of src seen free p in
      judge wake_on_free w.seen w.free_seen q ≡ WakeStep.keep_waiting
unfolding judge woken_of any_free_advanced advance_free_seen combine_wake
woken-waits wof src seen free p q e short = ground (
  arith,
  landed_of_row p q e,
  free_landed_of_row p q e,
  should_wake_again seen (landed_of p) q.elapsed short,
  free_advanced_again free.load (free_landed_of p).load,
  free_advanced_again free.discharge (free_landed_of p).discharge,
)
