-- ===== src/Periods/Months.antt =====
-- The first day of a month and of the month after.
use tt_aiops_platform.Prelude.{ℕ, ◌+◌, ◌≡◌, ◌<◌, ◌⊎◌, ap, ◌∙◌, inl, inr, Bool-cases, eqb, arith}
use tt_aiops_platform.Prelude.Int.{
  ℤ, pos, pos_part, neg_part, +ℤ_parts, ltb_ℤ, ◌+ℤ◌, ◌-ℤ◌, ◌≤ℤ◌, ◌<ℤ◌, int_laws, eq_of_parts,
}
use tt_aiops_platform.Periods.{Calendar, first_of_month, next_month}

module _ (cal : Calendar) where
  -- The date is the first of the month `m` of the year `y`.
  abbrev pub IsFirst : ℤ → ℤ → ℕ → Type 0
  IsFirst d y m = (cal.year d ≡ y) × (cal.month d ≡ m) × (cal.day d ≡ 1)

  pub first_of_month_lem : (d : ℤ) → IsFirst (first_of_month cal d) (cal.year d) (cal.month d)
  unfolding first_of_month
  first_of_month_lem d =
      let (e, found, y, m, k) =
        cal.first_days (cal.year d) (cal.month d) (cal.month_low d) (cal.month_high d) in
      rw found (y, m, k)

  -- The month after, in the next year after December.
  abbrev pub IsNext : ℤ → ℤ → Type 0
  IsNext d e =
      ((cal.month d ≡ 12) × IsFirst e (cal.year d +ℤ pos 1) 1)
      ⊎ (cal.month d < 12) × IsFirst e (cal.year d) (cal.month d + 1)

  pub next_month_lem : (d : ℤ) → IsNext d (next_month cal d)
  unfolding next_month
  next_month_lem d = elim (Bool-cases (eqb (cal.month d) 12)) [
    | inl e ↦
        let (f, found, y, m, k) =
          cal.first_days (cal.year d +ℤ pos 1) 1 (omega arith) (omega arith) in
        rw (e, next_month) (rw found (inl (ground arith, (y, m, k))))
    | inr e ↦
        let (f, found, y, m, k) =
          cal.first_days (cal.year d) (cal.month d + 1) (omega arith)
            (ground (arith, cal.month_high d)) in
        rw (e, next_month) (rw found (inr (ground (arith, cal.month_high d), (y, m, k))))
  ]

  -- `Before` is the order of the laws.
  abbrev Before : ℤ → ℤ → Type 0
  Before d e =
      (cal.year d <ℤ cal.year e)
      ⊎ (cal.year d ≡ cal.year e)
        × ((cal.month d < cal.month e) ⊎ (cal.month d ≡ cal.month e) × (cal.day d < cal.day e))

  not_before : (d e : ℤ) → ¬ Before d e → e ≤ℤ d
  not_before d e never = elim (Bool-cases (ltb_ℤ d e)) [
    | inl lt ↦ absurd (never (cal.ordered d e (ground arith)))
    | inr le ↦ ground arith
  ]

  -- A month starts on or before each of its days.
  pub first_of_month-le : (d : ℤ) → first_of_month cal d ≤ℤ d
  first_of_month-le d =
      let f = first_of_month_lem d in
      not_before d (first_of_month cal d) (λ b. ground (arith, f, cal.day_low d))

  lt_of_le : (d e : ℤ) → d ≤ℤ e → (d ≡ e → ⊥) → d <ℤ e
  lt_of_le d e le differ = elim (Bool-cases (ltb_ℤ d e)) [
    | inl lt ↦ ground arith
    | inr ge ↦ absurd (differ (eq_of_parts d e (ground arith)))
  ]

  IsNext-gt : (d f n : ℤ) → IsFirst f (cal.year d) (cal.month d) → IsNext f n → d <ℤ n
  IsNext-gt d f n (y, m, k) (inl (last, (ny, nm, nk))) =
      let year : cal.year n ≡ cal.year d +ℤ pos 1 = ny ∙ ap (λ z. z +ℤ pos 1) y in
      let parts = +ℤ_parts (cal.year d) (pos 1) in
      lt_of_le d n (not_before n d (λ b. ground (arith, ap pos_part year, ap neg_part year, parts)))
        (λ q. let same = ap cal.month q in omega (arith, same, last, m, nm))
  IsNext-gt d f n (y, m, k) (inr (more, (ny, nm, nk))) =
      let year : cal.year n ≡ cal.year d = ny ∙ y in
      lt_of_le d n (not_before n d (λ b. ground (arith, ap pos_part year, ap neg_part year)))
        (λ q. let same = ap cal.month q in omega (arith, same, m, nm))

  -- The first of the month after a day's month comes after the day.
  pub next_month-gt : (d : ℤ) → d <ℤ next_month cal (first_of_month cal d)
  next_month-gt d =
      IsNext-gt d (first_of_month cal d) (next_month cal (first_of_month cal d))
        (first_of_month_lem d) (next_month_lem (first_of_month cal d))

  -- Nothing that starts a month lies between a day of a month and the first of the month after.
  IsNext-le :
      (z f n x : ℤ)
      → IsFirst f (cal.year z) (cal.month z)
      → IsNext f n
      → cal.day x ≡ 1
      → z <ℤ x
      → n ≤ℤ x
  IsNext-le z f n x (y, m, k) (inl (last, (ny, nm, nk))) first lt =
      let year : cal.year n ≡ cal.year z +ℤ pos 1 = ny ∙ ap (λ t. t +ℤ pos 1) y in
      let parts = +ℤ_parts (cal.year z) (pos 1) in
      not_before x n (λ b.
        let a = cal.ordered z x lt in
        ground (
          arith,
          a,
          ap pos_part year,
          ap neg_part year,
          parts,
          cal.month_low x,
          cal.month_high x,
          cal.day_low z,
        ))
  IsNext-le z f n x (y, m, k) (inr (more, (ny, nm, nk))) first lt =
      let year : cal.year n ≡ cal.year z = ny ∙ y in
      not_before x n (λ b.
        let a = cal.ordered z x lt in
        ground (
          arith,
          a,
          ap pos_part year,
          ap neg_part year,
          cal.month_low x,
          cal.month_high x,
          cal.day_low z,
        ))

  -- The first of the month after the month before is the first of the month again.
  pub next_month_before :
      (d : ℤ)
      → next_month cal (first_of_month cal (first_of_month cal d -ℤ pos 1)) ≡ first_of_month cal d
  next_month_before d =
      let x = first_of_month cal d in
      let z = x -ℤ pos 1 in
      let f = first_of_month cal z in
      let after = next_month-gt z in
      let (_, _, first) = first_of_month_lem d in
      let upto =
        IsNext-le z f (next_month cal f) x (first_of_month_lem z) (next_month_lem f) first
          (omega int_laws) in
      eq_of_parts (next_month cal f) x (omega (int_laws, after, upto))

  -- From the first of a month up to the day before the first of the month after, the month is the same.
  pub same_month :
      (d t : ℤ)
      → first_of_month cal d ≤ℤ t
      → t <ℤ next_month cal (first_of_month cal d)
      → (cal.year t ≡ cal.year (first_of_month cal d))
        × (cal.month t ≡ cal.month (first_of_month cal d))
  same_month d t from before =
      let first = first_of_month cal d in
      let (_, _, one) = first_of_month_lem d in
      elim (Bool-cases (ltb_ℤ first t)) [
        | inl lt ↦
            let a = cal.ordered first t (ground arith) in
            let b = cal.ordered t (next_month cal first) before in
            elim (next_month_lem first) [
              | inl (last, (ny, nm, nk)) ↦
                  let parts = +ℤ_parts (cal.year first) (pos 1) in
                  (
                    eq_of_parts (cal.year t) (cal.year first) (
                        ground (
                          arith,
                          a,
                          b,
                          ap pos_part ny,
                          ap neg_part ny,
                          parts,
                          nm,
                          last,
                          cal.month_low t,
                          cal.day_low t,
                          nk,
                        )),
                    (ground (
                      arith,
                      a,
                      b,
                      ap pos_part ny,
                      ap neg_part ny,
                      parts,
                      nm,
                      last,
                      cal.month_low t,
                      cal.month_high t,
                      cal.day_low t,
                      nk,
                    )),
                  )
              | inr (more, (ny, nm, nk)) ↦ (
                eq_of_parts (cal.year t) (cal.year first)
                    (ground (arith, a, b, ap pos_part ny, ap neg_part ny, cal.day_low t, nk)),
                (ground (arith, a, b, ap pos_part ny, ap neg_part ny, nm, cal.day_low t, nk)),
              )
            ]
        | inr ge ↦
            let same : t ≡ first = eq_of_parts t first (ground arith) in
            (ap cal.year same, ap cal.month same)
      ]
