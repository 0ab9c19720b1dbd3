-- ===== src/Dispatch/Assign/Answer.antt =====
-- The last loop reads off the column of each row.
use tt_aiops_platform.Prelude.{
  ℕ, zero, suc, ◌+◌, ◌-◌, ◌≡◌, ◌≢◌, ◌≤◌, ◌<◌, refl, sym, ap, subst, ◌∙◌, false, List, [], ◌∷◌, inl,
  inr, Bool-cases, eqb, if◌then◌else◌, length, length-set, length-replicate, get_or,
  get_or-set_same, get_or-set_other, set, replicate, copies, copies-set, copies-get_or,
  eq_of_copies, place_of_copies, arith,
}
use tt_aiops_platform.Prelude.Int.{ℤ}
use tt_aiops_platform.Dispatch.Assign.{Hungarian, answer}
use tt_aiops_platform.Dispatch.Assign.Placed.{IsPlaced}

module _ (p : List ℕ) where
  length-answer : (j k : ℕ) (ans : List ℕ) → length (answer p j k ans) ≡ length ans
  unfolding answer
  length-answer j zero ans = refl
  length-answer j (suc k) ans = ground (
    arith,
    length-answer (suc j) k
        (if eqb (get_or p j 0) 0 then ans else set ans (get_or p j 0 - 1) (j - 1)),
    length-set ans (get_or p j 0 - 1) (j - 1),
  )

  -- One column writes the place of its own row only.
  other_row :
      (j i : ℕ) (ans : List ℕ)
      → get_or p j 0 ≢ suc i
      → get_or (if eqb (get_or p j 0) 0 then ans else set ans (get_or p j 0 - 1) (j - 1)) i 0
        ≡ get_or ans i 0
  other_row j i ans other = elim (Bool-cases (eqb (get_or p j 0) 0)) [
    | inl e ↦ rw e refl
    | inr e ↦ rw e (get_or-set_other ans (get_or p j 0 - 1) i (j - 1) 0 (ground (arith, other)))
  ]

  answer-kept :
      (j k i : ℕ) (ans : List ℕ)
      → ((y : ℕ) → j ≤ y → y < j + k → get_or p y 0 ≢ suc i)
      → get_or (answer p j k ans) i 0 ≡ get_or ans i 0
  unfolding answer
  answer-kept j zero i ans none = refl
  answer-kept j (suc k) i ans none =
      answer-kept (suc j) k i _ (λ y lo hi. none y (omega arith) (omega arith))
      ∙ other_row j i ans (none j (omega arith) (omega arith))

  answer-entry :
      (j k i x : ℕ) (ans : List ℕ)
      → i < length ans
      → j ≤ x
      → x < j + k
      → get_or p x 0 ≡ suc i
      → ((y : ℕ) → j ≤ y → y < j + k → get_or p y 0 ≡ suc i → y ≡ x)
      → get_or (answer p j k ans) i 0 ≡ x - 1
  unfolding answer
  answer-entry j zero i x ans lt lo hi q one = absurd (omega arith)
  answer-entry j (suc k) i x ans lt lo hi q one = elim (Bool-cases (eqb j x)) [
    | inl e ↦
        let same : j ≡ x = ground arith in
        let row : get_or p j 0 ≡ suc i = ap (λ y. get_or p y 0) same ∙ q in
        answer-kept (suc j) k i _
          (λ y lo2 hi2 q2. absurd (omega (arith, one y (omega arith) (omega arith) q2)))
        ∙ written j i ans lt row
        ∙ ap (λ y. y - 1) same
    | inr e ↦
        answer-entry (suc j) k i x _ (omega (arith, kept_length j ans)) (ground arith) (omega arith)
          q (λ y lo2 hi2 q2. one y (omega arith) (omega arith) q2)
  ]
    where
      written :
          (j i : ℕ) (ans : List ℕ)
          → i < length ans
          → get_or p j 0 ≡ suc i
          → get_or (if eqb (get_or p j 0) 0 then ans else set ans (get_or p j 0 - 1) (j - 1)) i 0
            ≡ j - 1
      written j i ans lt row =
          let e : eqb (get_or p j 0) 0 ≡ false = ground (arith, row) in
          rw e (
            subst (λ z. get_or (set ans z (j - 1)) i 0 ≡ j - 1) (omega (arith, row))
              (get_or-set_same ans i (j - 1) 0 lt))

      kept_length :
          (j : ℕ) (ans : List ℕ)
          → length (if eqb (get_or p j 0) 0 then ans else set ans (get_or p j 0 - 1) (j - 1))
            ≡ length ans
      kept_length j ans = ground (arith, length-set ans (get_or p j 0 - 1) (j - 1))

-- A list whose places hold different numbers holds each number once.
pub copies-le :
    (t : ℕ) (us : List ℕ)
    → ((x y : ℕ) → x < length us → y < length us → get_or us x 0 ≡ get_or us y 0 → x ≡ y)
    → copies t us ≤ 1
copies-le t [] inj = omega arith
copies-le t (u ∷ us) inj =
    let rest =
      copies-le t us
        (λ x y lx ly q. omega (arith, inj (suc x) (suc y) (omega arith) (omega arith) q)) in
    elim (Bool-cases (eqb t u)) [
      | inl e ↦ elim (Bool-cases (eqb (copies t us) 0)) [
        | inl z ↦ ground arith
        | inr z ↦
            let (x, lt, q) = place_of_copies t us (ground arith) in
            let same : t ≡ u = ground arith in
            absurd (omega (arith, inj 0 (suc x) (omega arith) (omega arith) (sym same ∙ sym q)))
      ]
      | inr e ↦ ground arith
    ]

module _ (a : List (List ℤ)) (n m c : ℕ) (h : Hungarian) (placed : IsPlaced a n m c n h) where
  abbrev pub cols : List ℕ
  cols = answer h.p 1 m (replicate n 0)

  pub length-cols : length cols ≡ n
  length-cols = length-answer h.p 1 m (replicate n 0) ∙ length-replicate n 0

  -- The rows of the columns from 1 on.
  abbrev rows : List ℕ
  rows = set h.p 0 0

  rows-later : (x : ℕ) → 1 ≤ x → get_or rows x 0 ≡ get_or h.p x 0
  rows-later x lo = get_or-set_other h.p 0 x 0 0 (ground arith)

  length-rows : length rows ≡ suc m
  length-rows = length-set h.p 0 0 ∙ placed.len_p

  copies-rows : (r : ℕ) → 1 ≤ r → r ≤ n → copies r rows ≡ 1
  copies-rows r lo hi =
      ground (arith, copies-set r 0 0 h.p (omega (arith, placed.len_p)), placed.once r lo hi)

  in_one_place :
      (x y : ℕ)
      → 1 ≤ x
      → x ≤ m
      → 1 ≤ y
      → y ≤ m
      → (r : ℕ) → 1 ≤ r
      → r ≤ n
      → get_or h.p x 0 ≡ r
      → get_or h.p y 0 ≡ r
      → y ≡ x
  in_one_place x y lx hx ly hy r lo hi q q2 =
      eq_of_copies r y x rows (omega (arith, length-rows)) (omega (arith, length-rows))
        (rows-later y ly ∙ q2) (rows-later x lx ∙ q) (omega (arith, copies-rows r lo hi))

  -- The column of the row `suc i`.
  pub row-column :
      (i : ℕ)
      → i < n
      → (x : ℕ) × (1 ≤ x) × (x ≤ m) × (get_or h.p x 0 ≡ suc i) × (get_or cols i 0 ≡ x - 1)
  row-column i lt =
      let (x, lx, q) =
        place_of_copies (suc i) rows
          (omega (arith, copies-rows (suc i) (omega arith) (omega arith))) in
      let start : get_or rows 0 0 ≡ 0 = get_or-set_same h.p 0 0 0 (omega (arith, placed.len_p)) in
      let not_0 : eqb x 0 ≡ false = elim (Bool-cases (eqb x 0)) [
        | inl e ↦
            let zero_x : x ≡ 0 = ground arith in
            absurd (omega (arith, start, q, ap (λ y. get_or rows y 0) zero_x))
        | inr e ↦ e
      ] in
      let lo : 1 ≤ x = ground arith in
      let row : get_or h.p x 0 ≡ suc i = sym (rows-later x lo) ∙ q in
      (
        x,
        lo,
        omega (arith, length-rows),
        row,
        answer-entry h.p 1 m i x (replicate n 0) (omega (arith, length-replicate {A = ℕ} n 0)) lo
            (omega (arith, length-rows)) row
            (λ y ly hy q2.
              in_one_place x y lo (omega (arith, length-rows)) ly (omega arith) (suc i)
                (omega arith) (omega arith) row q2),
      )

  pub copies-cols : (t : ℕ) → copies t cols ≤ 1
  copies-cols t = copies-le t cols (λ i k li lk q.
      let (x, lx, hx, row, at_i) = row-column i (omega (arith, length-cols)) in
      let (y, ly, hy, row2, at_k) = row-column k (omega (arith, length-cols)) in
      let same : x ≡ y = omega arith in omega (arith, ap (λ z. get_or h.p z 0) same))

  -- A column without a potential of 0 has its row in the answer.
  pub column-row : (x : ℕ) → x < m → get_or h.p (suc x) 0 ≢ 0 → 1 ≤ copies x cols
  column-row x lt other =
      let r = get_or h.p (suc x) 0 in
      let (i, hi, q) = row_index x lt other in
      let (y, ly, hy, row, at_i) = row-column i hi in
      let same : suc x ≡ y =
        in_one_place y (suc x) ly hy (omega arith) (omega arith) (suc i) (omega arith) (omega arith)
          row q in
      subst (λ t. 1 ≤ copies t cols) (omega arith)
        (copies-get_or i cols (omega (arith, length-cols)))
    where
      row_index :
          (x : ℕ)
          → x < m
          → get_or h.p (suc x) 0 ≢ 0
          → (i : ℕ) × (i < n) × (get_or h.p (suc x) 0 ≡ suc i)
      row_index x lt other =
          let r = get_or h.p (suc x) 0 in
          let stands = copies-get_or (suc x) rows (omega (arith, length-rows)) in
          let stands_r : 1 ≤ copies r rows =
            subst (λ z. 1 ≤ copies z rows) (rows-later (suc x) (omega arith)) stands in
          (
            r - 1,
            ground (
              arith,
              other,
              stands_r,
              placed.none_yet r,
              copies-set r 0 0 h.p (omega (arith, placed.len_p)),
            ),
            ground (arith, other),
          )
