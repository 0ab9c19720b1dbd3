-- ===== src/Dispatch/Cover/Search.antt =====
-- One search for an augmenting path: it ends, serves its slot if it succeeds, and drops no other.
use tt_aiops_platform.Prelude.{
  ℕ, suc, zero, ◌+◌, ◌≡◌, ◌≤◌, ◌<◌, refl, sym, ◌∙◌, ap, subst, Bool, true, false, not, Option, none,
  some, List, [], ◌∷◌, inl, inr, Bool-cases, Option-cases, if◌then◌else◌, eqb, length, length-set,
  get_or, get_or-set_same, get_or-set_other, set, All, arith,
}
use tt_aiops_platform.Dispatch.Cover.{Tries, scan, try_slot}

abbrev pub one_if : Bool → ℕ
one_if true = 1
one_if false = 0

abbrev pub held : ℕ → Option ℕ → ℕ
held x none = 0
held x (some s) = one_if (eqb s x)

-- How many trucks hold the slot `x`.
abbrev pub holders : ℕ → List (Option ℕ) → ℕ
holders x [] = 0
holders x (o ∷ ts) = held x o + holders x ts

abbrev pub unseen : List Bool → ℕ
unseen [] = 0
unseen (b ∷ bs) = one_if (not b) + unseen bs

holders-set :
    (x s t : ℕ) (ts : List (Option ℕ))
    → t < length ts
    → holders x (set ts t (some s)) + held x (get_or ts t none) ≡ holders x ts + one_if (eqb s x)
holders-set x s t [] h = absurd (omega arith)
holders-set x s zero (o ∷ ts) h = omega arith
holders-set x s (suc t) (o ∷ ts) h = omega (arith, holders-set x s t ts (omega arith))

pub unseen-set :
    (t : ℕ) (bs : List Bool) → get_or bs t true ≡ false → suc (unseen (set bs t true)) ≡ unseen bs
unseen-set t [] h = absurd (cc)
unseen-set zero (b ∷ bs) h = ground arith
unseen-set (suc t) (b ∷ bs) h = omega (arith, unseen-set t bs h)

lt-unseen : (t : ℕ) (bs : List Bool) → get_or bs t true ≡ false → t < length bs
lt-unseen t [] h = absurd (cc)
lt-unseen zero (b ∷ bs) h = omega arith
lt-unseen (suc t) (b ∷ bs) h = omega (arith, lt-unseen t bs h)

differ :
    (bs : List Bool) (t k : ℕ)
    → get_or bs t true ≡ false
    → get_or bs k true ≡ true
    → eqb t k ≡ false
differ bs t k e h = ground arith

-- `R t s`: truck `t` can serve slot `s`.
module _ (R : ℕ → ℕ → Type 0) where
  -- Every truck from the `a`-th on serves a slot that it can.
  abbrev pub Fits : ℕ → List (Option ℕ) → Type 0
  Fits a [] = Unit
  Fits a (none ∷ ts) = Fits (suc a) ts
  Fits a (some s ∷ ts) = R a s × Fits (suc a) ts

  Fits-tail : (a : ℕ) (o : Option ℕ) (ts : List (Option ℕ)) → Fits a (o ∷ ts) → Fits (suc a) ts
  Fits-tail a none ts h = h
  Fits-tail a (some s) ts h = h.1

  Fits-set :
      (a i s : ℕ) (ts : List (Option ℕ)) → Fits a ts → R (a + i) s → Fits a (set ts i (some s))
  Fits-set a i s [] h r = tt
  Fits-set a zero s (o ∷ ts) h r = (subst (λ k. R k s) (omega arith) r, Fits-tail a o ts h)
  Fits-set a (suc i) s (none ∷ ts) h r =
      Fits-set (suc a) i s ts h (subst (λ k. R k s) (omega arith) r)
  Fits-set a (suc i) s (some x ∷ ts) h r =
      (h.0, Fits-set (suc a) i s ts h.1 (subst (λ k. R k s) (omega arith) r))

  -- What a search for the slot `s` does: trucks seen before keep what they hold, one more truck holds
  -- `s` if the search succeeds, and each other slot has as many trucks as before.
  pub record IsStep (s : ℕ) (st : Tries) (b : Bool) (st' : Tries) : Type 0 where
    pub same_trucks : length st'.truck_slot ≡ length st.truck_slot
    pub same_seen : length st'.seen ≡ length st.seen
    pub kept_seen : (t : ℕ) → get_or st.seen t true ≡ true → get_or st'.seen t true ≡ true
    pub kept_slot :
        (t : ℕ)
        → get_or st.seen t true ≡ true
        → get_or st'.truck_slot t none ≡ get_or st.truck_slot t none
    pub served :
        (x : ℕ)
        → holders x st'.truck_slot ≡ holders x st.truck_slot + (if b then one_if (eqb s x) else 0)
    pub fits : Fits 0 st.truck_slot → Fits 0 st'.truck_slot
    pub no_more : unseen st'.seen ≤ unseen st.seen

  IsStep-trans :
      (r s : ℕ) (st st1 st2 : Tries) (b : Bool)
      → IsStep r st false st1
      → IsStep s st1 b st2
      → IsStep s st b st2
  IsStep-trans r s st st1 st2 b h k = record {
    same_trucks = k.same_trucks ∙ h.same_trucks;
    same_seen = k.same_seen ∙ h.same_seen;
    kept_seen = λ t e. k.kept_seen t (h.kept_seen t e);
    kept_slot = λ t e. k.kept_slot t (h.kept_seen t e) ∙ h.kept_slot t e;
    served = λ x. omega (arith, k.served x, h.served x);
    fits = λ f. k.fits (h.fits f);
    no_more = omega (arith, k.no_more, h.no_more);
  }

  abbrev mark : ℕ → Tries → Tries
  mark t st = record { truck_slot = st.truck_slot; seen = set st.seen t true }

  mark-IsStep :
      (s t : ℕ) (st : Tries) → get_or st.seen t true ≡ false → IsStep s st false (mark t st)
  mark-IsStep s t st e = record {
    same_trucks = refl;
    same_seen = length-set st.seen t true;
    kept_seen = λ k h. get_or-set_other st.seen t k true true (differ st.seen t k e h) ∙ h;
    kept_slot = λ k h. refl;
    served = λ x. omega arith;
    fits = λ f. f;
    no_more = omega (arith, unseen-set t st.seen e);
  }

  IsStep-refl : (s : ℕ) (st : Tries) → IsStep s st false st
  IsStep-refl s st = record {
    same_trucks = refl;
    same_seen = refl;
    kept_seen = λ k h. h;
    kept_slot = λ k h. refl;
    served = λ x. omega arith;
    fits = λ f. f;
    no_more = omega arith;
  }

  -- The truck `t` takes the slot `s`, and gives up the slot that has found another truck, if any.
  take-IsStep :
      (s t : ℕ) (st : Tries)
      → get_or st.seen t true ≡ false
      → length st.truck_slot ≡ length st.seen
      → R t s
      → (r : ℕ) (b : Bool) (st1 : Tries) → IsStep r (mark t st) b st1
      → ((x : ℕ) → held x (get_or st.truck_slot t none) ≡ (if b then one_if (eqb r x) else 0))
      → IsStep s st true (record st1 { truck_slot = set st1.truck_slot t (some s) })
  take-IsStep s t st e m fit r b st1 h o =
      let now_seen : get_or (set st.seen t true) t true ≡ true =
        get_or-set_same st.seen t true true (lt-unseen t st.seen e) in
      let stays = h.kept_slot t now_seen in
      let lt : t < length st1.truck_slot = omega (arith, h.same_trucks, m, lt-unseen t st.seen e) in
      record {
        same_trucks = length-set st1.truck_slot t (some s) ∙ h.same_trucks;
        same_seen = h.same_seen ∙ length-set st.seen t true;
        kept_seen = λ k w.
            h.kept_seen k (get_or-set_other st.seen t k true true (differ st.seen t k e w) ∙ w);
        kept_slot = λ k w.
            get_or-set_other st1.truck_slot t k (some s) none (differ st.seen t k e w)
            ∙ h.kept_slot k (get_or-set_other st.seen t k true true (differ st.seen t k e w) ∙ w);
        served = λ x.
            omega (arith, holders-set x s t st1.truck_slot lt, ap (held x) stays, o x, h.served x);
        fits = λ f. Fits-set 0 t s st1.truck_slot (h.fits f) (subst (λ k. R k s) (omega arith) fit);
        no_more = omega (arith, h.no_more, unseen-set t st.seen e);
      }

  -- The search returns, and what it does is a step.
  abbrev pub Returns : Option (Bool × Tries) → ℕ → Tries → Type 0
  Returns o s st = (b : Bool) × (st' : Tries) × (o ≡ some (b, st')) × IsStep s st b st'

  module _ (go : ℕ → Tries → Option (Bool × Tries)) (fuel : ℕ)
      (go-Returns : (s : ℕ) (st : Tries)
        → unseen st.seen < fuel
        → length st.truck_slot ≡ length st.seen
        → Returns (go s st) s st) where
    scan-Returns :
        (s : ℕ) (ts : List ℕ) (st : Tries)
        → unseen st.seen ≤ fuel
        → length st.truck_slot ≡ length st.seen
        → All (λ t. R t s) ts
        → Returns (scan go s ts st) s st
    unfolding scan
    scan-Returns s [] st le m fit = (false, st, refl, IsStep-refl s st)
    scan-Returns s (t ∷ ts) st le m fit = elim (Bool-cases (get_or st.seen t true)) [
      | inl e ↦ rw (e, scan) (scan-Returns s ts st le m fit.1)
      | inr e ↦
          rw (e, scan)
            (elim (Option-cases (get_or st.truck_slot t none)) [
              | inl o ↦
                  rw (o, scan)
                    (
                      true,
                      record (mark t st) { truck_slot = set st.truck_slot t (some s) },
                      refl,
                      take-IsStep s t st e m fit.0 s false (mark t st) (IsStep-refl s (mark t st))
                          (λ x. ap (held x) o),
                    )
              | inr (other, o) ↦
                  let (b, st1, k, h) =
                    go-Returns other (mark t st) (omega (arith, unseen-set t st.seen e))
                      (m ∙ sym (length-set st.seen t true)) in
                  rw (o, k, scan)
                    (elim (Bool-cases b) [
                      | inl found ↦
                          rw (found, scan)
                            (
                              true,
                              record st1 { truck_slot = set st1.truck_slot t (some s) },
                              refl,
                              take-IsStep s t st e m fit.0 other b st1 h (λ x.
                                  ap (held x) o
                                  ∙ sym (ap (λ v. if v then one_if (eqb other x) else 0) found)),
                            )
                      | inr lost ↦
                          rw (lost, scan)
                            (let so_far =
                                IsStep-trans other other st (mark t st) st1 false
                                  (mark-IsStep other t st e)
                                  (subst (λ v. IsStep other (mark t st) v st1) lost h) in
                              let (b2, st2, k2, h2) =
                                scan-Returns s ts st1 (omega (arith, so_far.no_more))
                                  (so_far.same_trucks ∙ m ∙ sym so_far.same_seen) fit.1 in
                              (b2, st2, k2, IsStep-trans other s st st1 st2 b2 so_far h2))
                    ])
            ])
    ]

-- With more fuel than there are trucks not seen the search returns.
module _ (R : ℕ → ℕ → Type 0) (adj : List (List ℕ)) (slot_wpos : List ℕ)
    (adj_fit : (s : ℕ) → All (λ t. R t s) (get_or adj (get_or slot_wpos s 0) [])) where
  pub try_slot-Returns :
      (fuel s : ℕ) (st : Tries)
      → unseen st.seen < fuel
      → length st.truck_slot ≡ length st.seen
      → Returns R (try_slot adj slot_wpos fuel s st) s st
  unfolding try_slot
  try_slot-Returns zero s st lt m = absurd (omega arith)
  try_slot-Returns (suc fuel) s st lt m =
      scan-Returns R (try_slot adj slot_wpos fuel) fuel (try_slot-Returns fuel) s
        (get_or adj (get_or slot_wpos s 0) []) st (omega arith) m (adj_fit s)
