-- ===== src/Dispatch/Holds/Latest.antt =====
-- Which order of each truck `restore_holds` brings back.
use tt_aiops_platform.Prelude.{
  ℕ, ◌≤◌, ◌≡◌, refl, sym, ◌∙◌, ap, subst, ◌⊎◌, inl, inr, String, true, false, some, List, [], ◌∷◌,
  arith, Option-cases, Bool-cases, ◌==◌, string_eq, eq_iff, ok, In, All-In,
}
use tt_aiops_platform.Prelude.Maps
use tt_aiops_platform.Prelude.Sorting.{
  sort_by, sort_by-IsSortedBy, In-sort_by, In-of-sort_by, IsSortedBy,
}
use tt_aiops_platform.Dispatch.Holds.{
  Hold, Held, Closed, OpenSent, open_le, hold_of_open, is_expired, restore_rows, restore_holds,
}
use tt_aiops_platform.Dispatch.Holds.Restore.{
  open_le_total, open_le_trans, open_le-le, lookup-restore_rows,
}

module _ (now_ms : ℕ) where
  -- The truck of the order is held by it or by one sent no earlier.
  abbrev pub IsCovered : Held → OpenSent → Type 0
  IsCovered after r = (h : Hold) × (Maps.lookup r.ytno after ≡ some h) × (r.sent_ms ≤ h.sent_ms)

  -- Nothing held so far was sent before the order.
  abbrev IsLater : Held → OpenSent → Type 0
  IsLater held r = (h : Hold) → Maps.lookup r.ytno held ≡ some h → r.sent_ms ≤ h.sent_ms

  IsLater-insert :
      (r : OpenSent) (held : Held) (q : OpenSent)
      → open_le r q ≡ true
      → IsLater held q
      → IsLater (Maps.insert r.ytno (hold_of_open r) held) q
  unfolding hold_of_open
  IsLater-insert r held q le later h e =
      ground
        (arith, Maps.lookup-insert r.ytno q.ytno (hold_of_open r) held, open_le-le r q le, later h)

  step_skip :
      (r : OpenSent) (rs : List OpenSent) (held : Held)
      → (is_expired now_ms r ≡ true) ⊎ (Maps.has_key r.ytno held ≡ true)
      → (restore_rows now_ms (r ∷ rs) held).0 ≡ (restore_rows now_ms rs held).0
  unfolding restore_rows
  step_skip r rs held h = ground arith

  step_take :
      (r : OpenSent) (rs : List OpenSent) (held : Held)
      → is_expired now_ms r ≡ false
      → Maps.has_key r.ytno held ≡ false
      → (restore_rows now_ms (r ∷ rs) held).0
        ≡ (restore_rows now_ms rs (Maps.insert r.ytno (hold_of_open r) held)).0
  unfolding restore_rows
  step_take r rs held h k = ground arith

  has_key-some :
      (yt : String) (held : Held)
      → Maps.has_key yt held ≡ true
      → (h : Hold) × (Maps.lookup yt held ≡ some h)
  has_key-some yt held k = elim (Option-cases (Maps.lookup yt held)) [
    | inl e ↦ absurd (cc (Maps.has_key-lookup yt held))
    | inr found ↦ found
  ]

  lookup_inserted :
      (r : OpenSent) (held : Held)
      → Maps.lookup r.ytno (Maps.insert r.ytno (hold_of_open r) held) ≡ some (hold_of_open r)
  lookup_inserted r held =
      ground (arith, Maps.lookup-insert r.ytno r.ytno (hold_of_open r) held, eq_iff r.ytno r.ytno)

  -- The first row of the list is covered, if it is not too old.
  restore_rows-first :
      (r : OpenSent) (rs : List OpenSent) (held : Held)
      → is_expired now_ms r ≡ false
      → IsLater held r
      → IsCovered (restore_rows now_ms (r ∷ rs) held).0 r
  unfolding hold_of_open
  restore_rows-first r rs held fresh later = elim (Bool-cases (Maps.has_key r.ytno held)) [
    | inl taken ↦
        let (h, e) = has_key-some r.ytno held taken in
        subst (λ m. IsCovered m r) (sym (step_skip r rs held (inr taken)))
          (h, lookup-restore_rows now_ms rs held r.ytno h e, later h e)
    | inr free ↦
        subst (λ m. IsCovered m r) (sym (step_take r rs held fresh free))
          (
            hold_of_open r,
            lookup-restore_rows now_ms rs (Maps.insert r.ytno (hold_of_open r) held) r.ytno
                (hold_of_open r) (lookup_inserted r held),
            omega arith,
          )
  ]

  restore_rows-IsCovered :
      (rows : List OpenSent) (held : Held) (q : OpenSent)
      → IsSortedBy open_le rows
      → In q rows
      → is_expired now_ms q ≡ false
      → IsLater held q
      → IsCovered (restore_rows now_ms rows held).0 q
  restore_rows-IsCovered [] held q s m fresh later = absurd m
  restore_rows-IsCovered (r ∷ rs) held q s (inl e) fresh later =
      subst (IsCovered (restore_rows now_ms (r ∷ rs) held).0) e
        (restore_rows-first r rs held (cc) (subst (IsLater held) (sym e) later))
  restore_rows-IsCovered (r ∷ rs) held q s (inr m) fresh later =
      elim (Bool-cases (is_expired now_ms r)) [
        | inl old ↦
            subst (λ t. IsCovered t q) (sym (step_skip r rs held (inl old)))
              (restore_rows-IsCovered rs held q s.1 m fresh later)
        | inr new ↦ elim (Bool-cases (Maps.has_key r.ytno held)) [
          | inl taken ↦
              subst (λ t. IsCovered t q) (sym (step_skip r rs held (inr taken)))
                (restore_rows-IsCovered rs held q s.1 m fresh later)
          | inr free ↦
              let le = All-In (λ y. open_le r y ≡ true) rs q s.0 m in
              subst (λ t. IsCovered t q) (sym (step_take r rs held new free))
                (restore_rows-IsCovered rs (Maps.insert r.ytno (hold_of_open r) held) q s.1 m fresh
                  (IsLater-insert r held q le later))
        ]
      ]

  -- The order that a hold of the result came from.
  abbrev pub ComesFrom : List OpenSent → String → Hold → Type 0
  ComesFrom rows yt h =
      (r : OpenSent) × In r rows
      × (r.ytno ≡ yt)
      × (is_expired now_ms r ≡ false)
      × (h ≡ hold_of_open r)

  ComesFrom-cons :
      {A : Type 0} (r : OpenSent) (rs : List OpenSent) (yt : String) (h : Hold)
      → A ⊎ ComesFrom rs yt h
      → A ⊎ ComesFrom (r ∷ rs) yt h
  ComesFrom-cons r rs yt h (inl a) = inl a
  ComesFrom-cons r rs yt h (inr (q, m, named, fresh, made)) = inr (q, inr m, named, fresh, made)

  inserted-ComesFrom :
      (r : OpenSent) (rs : List OpenSent) (held : Held) (yt : String) (h : Hold)
      → is_expired now_ms r ≡ false
      → (Maps.lookup yt (Maps.insert r.ytno (hold_of_open r) held) ≡ some h) ⊎ ComesFrom rs yt h
      → (Maps.lookup yt held ≡ some h) ⊎ ComesFrom (r ∷ rs) yt h
  inserted-ComesFrom r rs held yt h new (inr c) = ComesFrom-cons r rs yt h (inr c)
  inserted-ComesFrom r rs held yt h new (inl e) = elim (Bool-cases (r.ytno == yt)) [
    | inl same ↦
        let made : some (hold_of_open r) ≡ some h =
          cc (Maps.lookup-insert r.ytno yt (hold_of_open r) held) in
        inr (r, inl refl, (eq_iff r.ytno yt).0 same, new, cc)
    | inr other ↦ inl (cc (Maps.lookup-insert r.ytno yt (hold_of_open r) held))
  ]

  restore_rows-ComesFrom :
      (rows : List OpenSent) (held : Held) (yt : String) (h : Hold)
      → Maps.lookup yt (restore_rows now_ms rows held).0 ≡ some h
      → (Maps.lookup yt held ≡ some h) ⊎ ComesFrom rows yt h
  unfolding restore_rows
  restore_rows-ComesFrom [] held yt h e = inl e
  restore_rows-ComesFrom (r ∷ rs) held yt h e = elim (Bool-cases (is_expired now_ms r)) [
    | inl old ↦
        ComesFrom-cons r rs yt h
          (restore_rows-ComesFrom rs held yt h (cc (step_skip r rs held (inl old))))
    | inr new ↦ elim (Bool-cases (Maps.has_key r.ytno held)) [
      | inl taken ↦
          ComesFrom-cons r rs yt h
            (restore_rows-ComesFrom rs held yt h (cc (step_skip r rs held (inr taken))))
      | inr free ↦ inserted-ComesFrom r rs held yt h new (
          restore_rows-ComesFrom rs (Maps.insert r.ytno (hold_of_open r) held) yt h
            (cc (step_take r rs held new free)))
    ]
  ]

-- When a restore gives holds, each of them is that of an order of the rows which is not too old.
pub restore_holds-ComesFrom {ℓ} :
    (E : Type ℓ) (rows : List OpenSent) (now_ms : ℕ) (held : Held) (close : List Closed)
    (yt : String) (h : Hold)
    → restore_holds {E = E} (ok rows) now_ms ≡ some (held, close)
    → Maps.lookup yt held ≡ some h
    → ComesFrom now_ms rows yt h
unfolding restore_holds Maps.lookup
restore_holds-ComesFrom E rows now_ms held close yt h e found =
    let sorted = sort_by open_le rows in
    let after : (restore_rows now_ms sorted []).0 ≡ held = cc in
    elim (restore_rows-ComesFrom now_ms sorted [] yt h (ap (Maps.lookup yt) after ∙ found)) [
      | inl none_yet ↦ absurd (cc)
      | inr (r, k, named, new, made) ↦ (r, In-of-sort_by open_le rows r k, named, new, made)
    ]

-- After a start the truck of every order that is not too old holds an order of the rows for that
-- truck, sent no earlier: each truck holds its latest order.
pub restore_holds-latest {ℓ} :
    (E : Type ℓ) (rows : List OpenSent) (now_ms : ℕ) (held : Held) (close : List Closed)
    (q : OpenSent)
    → restore_holds {E = E} (ok rows) now_ms ≡ some (held, close)
    → In q rows
    → is_expired now_ms q ≡ false
    → (h : Hold) × (Maps.lookup q.ytno held ≡ some h)
      × (q.sent_ms ≤ h.sent_ms)
      × ComesFrom now_ms rows q.ytno h
unfolding restore_holds Maps.lookup
restore_holds-latest E rows now_ms held close q e m fresh =
    let sorted = sort_by open_le rows in
    let after : (restore_rows now_ms sorted []).0 ≡ held = cc in
    let ordered = sort_by-IsSortedBy open_le open_le_total open_le_trans rows in
    let covered =
      restore_rows-IsCovered now_ms sorted [] q ordered (In-sort_by open_le rows q m) fresh
        (λ h none_yet. absurd (cc)) in
    let (h, found, le) = subst (λ t. IsCovered now_ms t q) after covered in
    (h, found, le, restore_holds-ComesFrom E rows now_ms held close q.ytno h e found)
