-- ===== src/TosAvail/Diff/Trace.antt =====
-- The history of one truck in a list of transitions: it alternates, and its times go up.
use tt_aiops_platform.Prelude.{
  ◌≡◌, ◌<◌, ◌≤◌, refl, sym, subst, ◌∙◌, ◌⊎◌, String, Bool, true, false, not, Option, List, [], ◌∷◌,
  ◌++◌, map, arith, inl, inr, Bool-cases, if◌then◌else◌, ◌==◌, string_eq, eq_iff,
}
use tt_aiops_platform.Prelude.Sets
use tt_aiops_platform.TosAvail.Txn.{Instant, Blame}
use tt_aiops_platform.TosAvail.Diff.{Transition, step_ts, entering, leaving, diff_into}

-- From `listed` after `low` to `listed'` not after `high`: each transition of the truck changes what
-- the one before left, and comes later than it.
abbrev pub Trace : String → Bool → Instant → List Transition → Bool → Instant → Type 0
Trace y listed low [] listed' high = (listed ≡ listed') × (low ≤ high)
Trace y listed low (t ∷ ts) listed' high =
    if t.ytno == y
    then ((t.enter ≡ not listed) × (low < t.ts) × Trace y t.enter t.ts ts listed' high)
    else Trace y listed low ts listed' high

Trace-lower :
    (y : String) (xs : List Transition) (a b : Bool) (low mid high : Instant)
    → low ≤ mid
    → Trace y a mid xs b high
    → Trace y a low xs b high
Trace-lower y [] a b low mid high le h = (h.0, omega (arith, h.1))
Trace-lower y (t ∷ ts) a b low mid high le h = elim (Bool-cases (t.ytno == y)) [
  | inl e ↦ let k = rw (e, Trace) at h in rw e (k.0, omega (arith, k.1), k.2)
  | inr e ↦ rw e (Trace-lower y ts a b low mid high le (rw e at h))
]

pub Trace-append :
    (y : String) (xs ys : List Transition) (a b c : Bool) (low mid high : Instant)
    → Trace y a low xs b mid
    → Trace y b mid ys c high
    → Trace y a low (xs ++ ys) c high
Trace-append y [] ys a b c low mid high h k =
    Trace-lower y ys a c low mid high h.1 (subst (λ v. Trace y v mid ys c high) (sym h.0) k)
Trace-append y (t ∷ ts) ys a b c low mid high h k = elim (Bool-cases (t.ytno == y)) [
  | inl e ↦
      let g = rw e at h in rw e (g.0, g.1, Trace-append y ts ys t.enter b c t.ts mid high g.2 k)
  | inr e ↦ rw e (Trace-append y ts ys a b c low mid high (rw e at h) k)
]

-- Transitions at one time, of one kind, one for each truck of a list.
module _ (f : String → Transition) (ts : Instant) (kind : Bool)
    (names : (x : String) → (f x).ytno ≡ x) (times : (x : String) → (f x).ts ≡ ts)
    (kinds : (x : String) → (f x).enter ≡ kind) where
  Trace-map_absent :
      (y : String) (xs : List String) (a b : Bool) (low high : Instant)
      → low ≤ high
      → Sets.contains y xs ≡ false
      → a ≡ b
      → Trace y a low (map f xs) b high
  unfolding Sets.contains
  Trace-map_absent y [] a b low high le h e = (e, le)
  Trace-map_absent y (x ∷ xs) a b low high le h e = elim (Bool-cases ((f x).ytno == y)) [
    | inl same ↦ absurd (ground (arith, names x))
    | inr other ↦ rw other (Trace-map_absent y xs a b low high le (ground (arith, names x)) e)
  ]

  Trace-map_present :
      (y : String) (xs : List String) (a : Bool) (low : Instant)
      → low < ts
      → Sets.NoDup xs
      → Sets.contains y xs ≡ true
      → kind ≡ not a
      → Trace y a low (map f xs) kind ts
  unfolding Sets.contains
  Trace-map_present y [] a low lt d h e = absurd (cc)
  Trace-map_present y (x ∷ xs) a low lt d h e = elim (Bool-cases ((f x).ytno == y)) [
    | inl same ↦
        let gone : Sets.contains y xs ≡ false = ground (arith, names x, eq_iff x y, d.0) in
        rw same (
          kinds x ∙ e,
          omega (arith, times x),
          Trace-map_absent y xs (f x).enter kind (f x).ts ts (omega (arith, times x)) gone
              (kinds x),
        )
    | inr other ↦ rw other (Trace-map_present y xs a low lt d.1 (ground (arith, names x)) e)
  ]

  -- Both at once: the truck moves if it is in the list.
  Trace-map :
      (y : String) (xs : List String) (a b : Bool) (low : Instant)
      → low < ts
      → Sets.NoDup xs
      → (Sets.contains y xs ≡ true) × (kind ≡ not a) × (b ≡ kind)
        ⊎ (Sets.contains y xs ≡ false) × (a ≡ b)
      → Trace y a low (map f xs) b ts
  Trace-map y xs a b low lt d (inl (h, e, k)) =
      subst (λ v. Trace y a low (map f xs) v ts) (sym k) (Trace-map_present y xs a low lt d h e)
  Trace-map y xs a b low lt d (inr (h, e)) = Trace-map_absent y xs a b low ts (omega arith) h e

-- A truck of the set before is not among those that enter, and leaves if it is not in the set after;
-- a truck that is not in the set before enters if it is in the set after, and does not leave.
moves :
    (y : String) (before after : List String)
    → (Sets.contains y before ≡ true)
        × (Sets.contains y (Sets.difference after before) ≡ false)
        × ((Sets.contains y (Sets.difference before after) ≡ true)
              × (false ≡ not (Sets.contains y before))
              × (Sets.contains y after ≡ false)
            ⊎ (Sets.contains y (Sets.difference before after) ≡ false)
              × (Sets.contains y before ≡ Sets.contains y after))
      ⊎ (Sets.contains y before ≡ false)
        × (Sets.contains y (Sets.difference before after) ≡ false)
        × ((Sets.contains y (Sets.difference after before) ≡ true)
              × (true ≡ not (Sets.contains y before))
              × (Sets.contains y after ≡ true)
            ⊎ (Sets.contains y (Sets.difference after before) ≡ false)
              × (Sets.contains y before ≡ Sets.contains y after))
moves y before after =
    ground (arith, Sets.contains-difference y after before, Sets.contains-difference y before after)

-- The transitions of a difference take every truck from the one set to the other.
module _ (f g : String → Transition) (ts : Instant) (f_names : (x : String) → (f x).ytno ≡ x)
    (f_times : (x : String) → (f x).ts ≡ ts) (f_kinds : (x : String) → (f x).enter ≡ true)
    (g_names : (x : String) → (g x).ytno ≡ x) (g_times : (x : String) → (g x).ts ≡ ts)
    (g_kinds : (x : String) → (g x).enter ≡ false) where
  pub Trace-difference :
      (y : String) (before after : List String) (low : Instant)
      → low < ts
      → Sets.NoDup before
      → Sets.NoDup after
      → Trace y
          (Sets.contains y before)
          low
          (map f (Sets.difference after before) ++ map g (Sets.difference before after))
          (Sets.contains y after)
          ts
  Trace-difference y before after low lt d e =
      let ins = Sets.difference after before in
      let outs = Sets.difference before after in
      let a = Sets.contains y before in
      let b = Sets.contains y after in
      let d_in = Sets.difference-NoDup after before e in
      let d_out = Sets.difference-NoDup before after d in
      elim (moves y before after) [
        | inl (there, not_in, out) ↦
            Trace-append y (map f ins) (map g outs) a a b low low ts
              (Trace-map_absent f ts true f_names f_times f_kinds y ins a a low low (omega arith)
                not_in refl)
              (Trace-map g ts false g_names g_times g_kinds y outs a b low lt d_out out)
        | inr (away, not_out, into) ↦
            Trace-append y (map f ins) (map g outs) a b b low ts ts
              (Trace-map f ts true f_names f_times f_kinds y ins a b low lt d_in into)
              (Trace-map_absent g ts false g_names g_times g_kinds y outs b b ts ts (omega arith)
                not_out refl)
      ]

-- What `diff_into` adds takes every truck from the set before to the set after, at one new time.
pub diff_into-Trace :
    (y : String) (out : List Transition) (before after : List String) (ts low last : Instant)
    (blame : Option Blame) (changed : List String) (late listed : Bool)
    → last < ts
    → Sets.NoDup before
    → Sets.NoDup after
    → Trace y listed low out (Sets.contains y before) last
    → Trace y listed low
        (diff_into out before after ts blame changed late)
        (Sets.contains y after)
        ts
unfolding diff_into entering leaving
diff_into-Trace y out before after ts low last blame changed late listed lt d e h =
    Trace-append y out _ listed (Sets.contains y before) (Sets.contains y after) low last ts h (
      Trace-difference (entering ts blame changed late) (leaving ts blame changed late) ts
        (λ x. refl) (λ x. refl) (λ x. refl) (λ x. refl) (λ x. refl) (λ x. refl) y before after last
        lt d e)

pub lt-step_ts : (want last : Instant) → last < step_ts want last
unfolding step_ts
lt-step_ts want last = ground arith
