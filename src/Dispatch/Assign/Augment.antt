-- ===== src/Dispatch/Assign/Augment.antt =====
-- The second inner loop follows `way` back to column 0 and hands each column the row of the next.
use tt_aiops_platform.Prelude.{
  ℕ, zero, suc, ◌+◌, ◌≡◌, ◌≢◌, ◌≤◌, ◌<◌, refl, sym, ap, subst, ◌∙◌, true, false, some, List, inl,
  inr, Bool-cases, eqb, length, length-set, get_or, get_or-set_same, get_or-set_other, set, copies,
  copies-set, one_if_same, arith,
}
use tt_aiops_platform.Dispatch.Assign.{augment}

-- From `j` the way leads back to column 0 in `k` steps, through columns `x` with `T x`.
abbrev pub Leads : (ℕ → Type 0) → List ℕ → ℕ → ℕ → Type 0
Leads T way zero j = j ≡ 0
Leads T way (suc k) j = (j ≢ 0) × T (get_or way j 0) × Leads T way k (get_or way j 0)

Leads-unique :
    (T : ℕ → Type 0) (way : List ℕ) (k l j : ℕ) → Leads T way k j → Leads T way l j → k ≡ l
Leads-unique T way zero zero j h g = refl
Leads-unique T way zero (suc l) j h g = absurd (g.0 h)
Leads-unique T way (suc k) zero j h g = absurd (h.0 g)
Leads-unique T way (suc k) (suc l) j h g = ap suc (Leads-unique T way k l (get_or way j 0) h.2 g.2)

eq_of_eqb : (j x : ℕ) → eqb j x ≡ true → j ≡ x
eq_of_eqb j x h = ground arith

module _ (T : ℕ → Type 0) (way : List ℕ) (G : ℕ → ℕ → Type 0) where
  -- The row of the next column on the way suits each column on it.
  abbrev pub PathFits : List ℕ → ℕ → ℕ → Type 0
  PathFits p zero j = Unit
  PathFits p (suc k) j = G (get_or p (get_or way j 0) 0) j × PathFits p k (get_or way j 0)

  PathFits-set :
      (p : List ℕ) (h j v k c : ℕ)
      → Leads T way h j
      → k ≤ h
      → Leads T way k c
      → PathFits p k c
      → PathFits (set p j v) k c
  PathFits-set p h j v zero c lj le lc f = tt
  PathFits-set p h j v (suc k) c lj le lc f =
      let next = get_or way c 0 in
      let apart : eqb j next ≡ false = elim (Bool-cases (eqb j next)) [
        | inl e ↦
            let same : j ≡ next = ground arith in
            let steps = Leads-unique T way h k next (subst (Leads T way h) same lj) lc.2 in
            absurd (omega arith)
        | inr e ↦ e
      ] in
      (
        subst (λ r. G r c) (sym (get_or-set_other p j next v 0 apart)) f.0,
        PathFits-set p h j v k next lj (omega arith) lc.2 f.1,
      )

  set-fits :
      (p : List ℕ) (j v x : ℕ)
      → j < length p
      → G v j
      → (x ≢ j → G (get_or p x 0) x)
      → G (get_or (set p j v) x 0) x
  set-fits p j v x lt h g = elim (Bool-cases (eqb j x)) [
    | inl e ↦
        subst (λ y. G (get_or (set p j v) y 0) y) (eq_of_eqb j x e)
          (subst (λ r. G r j) (sym (get_or-set_same p j v 0 lt)) h)
    | inr e ↦
        subst (λ r. G r x) (sym (get_or-set_other p j x v 0 e)) (g (λ q. absurd (ground arith)))
  ]

  -- What the loop returns.
  pub record IsAugmented (m j : ℕ) (p p' : List ℕ) : Type 0 where
    pub same_length : length p' ≡ length p
    pub same_rows :
        (r : ℕ)
        → copies r p' + one_if_same r (get_or p j 0) ≡ copies r p + one_if_same r (get_or p' 0 0)
    pub fits : (x : ℕ) → 1 ≤ x → x < m → G (get_or p' x 0) x

  pub augment-IsAugmented :
      (m k fuel j : ℕ) (p : List ℕ)
      → length p ≡ m
      → ((x : ℕ) → T x → x < m)
      → j < m
      → suc k ≤ fuel
      → Leads T way (suc k) j
      → PathFits p (suc k) j
      → ((x : ℕ) → 1 ≤ x → x < m → x ≢ j → G (get_or p x 0) x)
      → (p' : List ℕ) × (augment fuel way j p ≡ some p') × IsAugmented m j p p'
  unfolding augment
  augment-IsAugmented m k zero j p len lt_m lt le l f g = absurd (omega arith)
  augment-IsAugmented m zero (suc fuel) j p len lt_m lt le l f g =
      let v = get_or p (get_or way j 0) 0 in
      let stop : eqb (get_or way j 0) 0 ≡ true = ground (arith, l.2) in
      let p' = set p j v in
      (
        p',
        rw (stop, augment) refl,
        record {
          same_length = length-set p j v;
          same_rows = λ r. omega (
            arith,
            copies-set r j v p (omega arith),
            ap (one_if_same r) (
                get_or-set_other p j 0 v 0 (ground (arith, l.0))
                ∙ ap (λ c. get_or p c 0) (sym l.2)),
          );
          fits = λ x lo hi. set-fits p j v x (omega arith) f.0 (g x lo hi);
        },
      )
  augment-IsAugmented m (suc k) (suc fuel) j p len lt_m lt le l f g =
      let j1 = get_or way j 0 in
      let v = get_or p j1 0 in
      let p1 = set p j v in
      let go : eqb j1 0 ≡ false = ground (arith, l.2.0) in
      let apart : eqb j j1 ≡ false = elim (Bool-cases (eqb j j1)) [
        | inl e ↦
            let steps =
              Leads-unique T way (suc (suc k)) (suc k) j1
                (subst (Leads T way (suc (suc k))) (eq_of_eqb j j1 e) l) l.2 in
            absurd (omega arith)
        | inr e ↦ e
      ] in
      let (p', e, h) =
        augment-IsAugmented m k fuel j1 p1 (length-set p j v ∙ len) lt_m (lt_m j1 l.1) (omega arith)
          l.2 (PathFits-set p (suc (suc k)) j v (suc k) j1 l (omega arith) l.2 f.1)
          (λ x lo hi other. set-fits p j v x (omega arith) f.0 (g x lo hi)) in
      (
        p',
        rw (go, augment) e,
        record {
          same_length = h.same_length ∙ length-set p j v;
          same_rows = λ r. omega (
            arith,
            h.same_rows r,
            copies-set r j v p (omega arith),
            ap (one_if_same r) (get_or-set_other p j j1 v 0 apart),
          );
          fits = h.fits;
        },
      )
