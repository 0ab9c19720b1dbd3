-- ===== src/Dispatch/Tick/Tiers.antt =====
-- crates/api/src/livemap.rs, `spawn_stage2_shadow`: the tier of each work by its slack before the
-- departure, with the band that a tier must leave before it may relax.
use tt_aiops_platform.Prelude.{
  ◌⊎◌, inl, inr, Option-cases, ap, ◌∙◌, or_else, ◌==◌, ℕ, ◌≡◌, ◌≤◌, ◌<◌, ◌+◌, Bool, Option, none,
  some, List, [], ◌∷◌, if◌then◌else◌, leb, eqb, get_elem?, zero, suc, refl, arith, triple_eq,
  unwrap_or,
}
use tt_aiops_platform.Prelude.Maps
use tt_aiops_platform.Prelude.Int.{ℤ, pos, ◌-ℤ◌, div_ℤ, ltb_ℤ, leb_ℤ, ◌≤ℤ◌, ◌<ℤ◌}
use tt_aiops_platform.Dispatch.Tick.{Work, Key, key_of}

abbrev pub dep_tight_s : ℕ
dep_tight_s = 1800

abbrev pub dep_hyst_s : ℕ
dep_hyst_s = 300

-- The slack: the time to the deadline less the time that the work takes.
unfoldable pub slack_of : ℤ → Work → Option ℤ
slack_of now w = elim w.deadline_ts [
  | none ↦ none
  | some d ↦ elim w.proc_s [ none ↦ none | some p ↦ some (div_ℤ (d -ℤ now) 1000 -ℤ p) ]
]

unfoldable pub raw_tier : Option ℤ → ℕ
raw_tier none = 2
raw_tier (some v) = if ltb_ℤ v (pos 0) then 0 else if ltb_ℤ v (pos dep_tight_s) then 1 else 2

-- `need`: the slack at which a work of tier `p` may relax.
unfoldable pub relax_at : ℕ → ℕ
relax_at p = if eqb p 0 then dep_hyst_s else dep_tight_s + dep_hyst_s

-- `s.unwrap_or(i64::MAX) >= need`
unfoldable pub may_relax : Option ℤ → ℕ → Bool
may_relax none p = leb (relax_at p) 9223372036854775807
may_relax (some v) p = leb_ℤ (pos (relax_at p)) v

-- `t`: the tier from the slack and the tier `p` of the tick before.
unfoldable pub settle : Option ℤ → ℕ → ℕ
settle s p = if leb (raw_tier s) p then raw_tier s else if may_relax s p then raw_tier s else p

unfoldable pub tier_of : List (Key × ℕ) → ℤ → Work → ℕ
tier_of prev_tier now w =
    let s = slack_of now w in settle s (unwrap_or (Maps.lookup (key_of w) prev_tier) (raw_tier s))

-- The loop: the slacks and tiers of the works, and the map that replaces `prev_tier`.
unfoldable pub dep_tiers :
    List (Key × ℕ) → ℤ → List Work → List (Key × ℕ) → List (Option ℤ × ℕ) × List (Key × ℕ)
dep_tiers prev_tier now [] next_tier = ([], next_tier)
dep_tiers prev_tier now (w ∷ works) next_tier =
    let t = tier_of prev_tier now w in
    let (rest, final) = dep_tiers prev_tier now works (Maps.insert (key_of w) t next_tier) in
    ((slack_of now w, t) ∷ rest, final)

-- The slack is the whole seconds to the deadline less the seconds that the work takes; without both
-- there is none.
abbrev pub IsSlack : ℤ → Work → Option ℤ → Type 0
IsSlack now w none = (w.deadline_ts ≡ none) ⊎ (w.proc_s ≡ none)
IsSlack now w (some v) =
    (d : ℤ) × (p : ℤ) × (w.deadline_ts ≡ some d)
    × (w.proc_s ≡ some p)
    × (v ≡ div_ℤ (d -ℤ now) 1000 -ℤ p)

-- The tier that a slack asks for: 0 when it is negative, 1 below half an hour, 2 from there on and
-- without a slack.
abbrev pub AsksFor : Option ℤ → ℕ → Type 0
AsksFor none r = r ≡ 2
AsksFor (some v) r =
    ((v <ℤ pos 0) × (r ≡ 0))
    ⊎ ((pos 0 ≤ℤ v) × (v <ℤ pos 1800) × (r ≡ 1))
    ⊎ ((pos 1800 ≤ℤ v) × (r ≡ 2))

-- The slack is out of the band of the tier `p`: at least 300 seconds for tier 0, at least 2100 for the
-- others; no slack is out of every band.
abbrev pub LeftBand : Option ℤ → ℕ → Type 0
LeftBand none p = Unit
LeftBand (some v) p = ((p ≡ 0) × (pos 300 ≤ℤ v)) ⊎ ((1 ≤ p) × (pos 2100 ≤ℤ v))

abbrev pub InBand : Option ℤ → ℕ → Type 0
InBand none p = ⊥
InBand (some v) p = ((p ≡ 0) × (v <ℤ pos 300)) ⊎ ((1 ≤ p) × (v <ℤ pos 2100))

-- From the tier `p` before and the tier `r` that the slack asks for: `r` at once when it is as urgent
-- as `p` or more, `r` too when the slack is out of the band, and else `p` is kept.
abbrev pub IsSettled : Option ℤ → ℕ → ℕ → ℕ → Type 0
IsSettled s p r t = (r ≤ p → t ≡ r) × (p < r → LeftBand s p → t ≡ r) × (p < r → InBand s p → t ≡ p)

slack_of-IsSlack : (now : ℤ) (w : Work) → IsSlack now w (slack_of now w)
unfolding slack_of
slack_of-IsSlack now w = elim (Option-cases w.deadline_ts) [
  | inl e ↦ rw (e, slack_of) (inl refl)
  | inr (d, e) ↦ elim (Option-cases w.proc_s) [
    | inl k ↦ rw (e, k, slack_of) (inr refl)
    | inr (p, k) ↦ rw (e, k, slack_of) (d, p, refl, refl, refl)
  ]
]

raw_tier-AsksFor : (s : Option ℤ) → AsksFor s (raw_tier s)
unfolding raw_tier
raw_tier-AsksFor none = refl
raw_tier-AsksFor (some v) = ground arith

settle-IsSettled : (s : Option ℤ) (p : ℕ) → IsSettled s p (raw_tier s) (settle s p)
unfolding settle may_relax relax_at
settle-IsSettled none p = ground arith
settle-IsSettled (some v) p = ground arith

-- The same slack again gives the same tier again.
settle-settle : (s : Option ℤ) (p : ℕ) → settle s (settle s p) ≡ settle s p
unfolding settle
settle-settle s p = ground arith

-- A longer slack never makes a work more urgent.
settle_mono : (v w : ℤ) (p : ℕ) → v ≤ℤ w → settle (some v) p ≤ settle (some w) p
unfolding settle raw_tier may_relax relax_at
settle_mono v w p h = ground arith

or_else-none : {A : Type 0} (o : Option A) → or_else o none ≡ o
or_else-none none = refl
or_else-none (some a) = refl

-- The tier that is given to the last work of the queue `k`, `tiers` being the slacks and tiers given.
abbrev pub last_tier : Key → List Work → List (Option ℤ × ℕ) → Option ℕ
last_tier k [] tiers = none
last_tier k (w ∷ works) [] = none
last_tier k (w ∷ works) ((s, t) ∷ tiers) =
    or_else (last_tier k works tiers) (if key_of w == k then some t else none)

dep_tiers-entry :
    (prev_tier : List (Key × ℕ)) (now : ℤ) (works : List Work) (next_tier : List (Key × ℕ)) (i : ℕ)
    (w : Work)
    → get_elem? works i ≡ some w
    → get_elem? (dep_tiers prev_tier now works next_tier).0 i
      ≡ some (slack_of now w, tier_of prev_tier now w)
unfolding dep_tiers
dep_tiers-entry prev_tier now [] next_tier i w h = absurd (cc)
dep_tiers-entry prev_tier now (v ∷ works) next_tier zero w h =
    ap (λ o. some (slack_of now (unwrap_or o v), tier_of prev_tier now (unwrap_or o v))) h
dep_tiers-entry prev_tier now (v ∷ works) next_tier (suc i) w h =
    dep_tiers-entry prev_tier now works (Maps.insert (key_of v) (tier_of prev_tier now v) next_tier)
      i w h

lookup-dep_tiers :
    (prev_tier : List (Key × ℕ)) (now : ℤ) (works : List Work) (next_tier : List (Key × ℕ))
    (k : Key)
    → Maps.lookup k (dep_tiers prev_tier now works next_tier).1
      ≡ or_else
          (last_tier k works (dep_tiers prev_tier now works next_tier).0)
          (Maps.lookup k next_tier)
unfolding dep_tiers
lookup-dep_tiers prev_tier now [] next_tier k = refl
lookup-dep_tiers prev_tier now (w ∷ works) next_tier k =
    let t = tier_of prev_tier now w in
    lookup-dep_tiers prev_tier now works (Maps.insert (key_of w) t next_tier) k
    ∙ ground (arith, Maps.lookup-insert (key_of w) k t next_tier)

-- The tiers of a work in a tick: its slack, the tier `r` that the slack asks for, and the tier `t` that
-- it gets, settled from the tier of its queue in the map before, or from `r` for a new queue.
abbrev pub IsTiered : List (Key × ℕ) → ℤ → Work → Option ℤ × ℕ → Type 0
IsTiered prev_tier now w (s, t) =
    IsSlack now w s
    × ((r : ℕ) × AsksFor s r × IsSettled s (unwrap_or (Maps.lookup (key_of w) prev_tier) r) r t)

tier_of-IsTiered :
    (prev_tier : List (Key × ℕ)) (now : ℤ) (w : Work)
    → IsTiered prev_tier now w (slack_of now w, tier_of prev_tier now w)
unfolding tier_of
tier_of-IsTiered prev_tier now w =
    let s = slack_of now w in
    (
      slack_of-IsSlack now w,
      (
        raw_tier s,
        raw_tier-AsksFor s,
        settle-IsSettled s (unwrap_or (Maps.lookup (key_of w) prev_tier) (raw_tier s)),
      ),
    )

-- Every work of a tick gets its slack, which is the whole seconds to the deadline less those that the
-- work takes, and a tier. With the tier that the slack asks for (0 below 0, 1 below 1800 seconds, else
-- 2) and the tier of its queue in the map of the tick before: the work gets the former at once when it
-- is as urgent or more, and also when the slack is out of the band, at least 300 seconds from tier 0
-- and 2100 from the others; within the band it keeps the latter. The next map has for every queue the
-- tier of its last work, and nothing for other queues. Settling again with the same slack changes
-- nothing, and a longer slack never gives a more urgent tier.
pub dep_tiers_lem :
    (prev_tier : List (Key × ℕ)) (now : ℤ) (works : List Work)
    → ((i : ℕ) (w : Work)
        → get_elem? works i ≡ some w
        → (x : Option ℤ × ℕ) × (get_elem? (dep_tiers prev_tier now works []).0 i ≡ some x)
          × IsTiered prev_tier now w x)
      × ((k : Key)
          → Maps.lookup k (dep_tiers prev_tier now works []).1
            ≡ last_tier k works (dep_tiers prev_tier now works []).0)
      × ((s : Option ℤ) (p : ℕ) → settle s (settle s p) ≡ settle s p)
      × ((v w : ℤ) (p : ℕ) → v ≤ℤ w → settle (some v) p ≤ settle (some w) p)
unfolding Maps.lookup
dep_tiers_lem prev_tier now works = (
  (λ i w e. (
    (slack_of now w, tier_of prev_tier now w),
    dep_tiers-entry prev_tier now works [] i w e,
    tier_of-IsTiered prev_tier now w,
  )),
  (λ k.
      lookup-dep_tiers prev_tier now works [] k
      ∙ or_else-none (last_tier k works (dep_tiers prev_tier now works []).0)),
  settle-settle,
  settle_mono,
)
