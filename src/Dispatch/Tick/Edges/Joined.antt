-- ===== src/Dispatch/Tick/Edges/Joined.antt =====
-- When a truck and a work are joined, and at which cost, told without the code's own tests.
use tt_aiops_platform.Prelude.{
  ℕ, ◌≡◌, ◌≢◌, ◌↔◌, ◌⊎◌, refl, sym, ap, ◌∙◌, String, Bool, true, false, Option, none, some, List,
  [], ◌∷◌, inl, inr, Bool-cases, Option-cases, In, arith, ◌==◌, string_eq, triple_eq, opt_eq_iff,
  eq_iff, unwrap_or,
}
use tt_aiops_platform.Prelude.Maps
use tt_aiops_platform.Prelude.Int.{ℤ, pos, ◌+ℤ◌, ◌-ℤ◌, ◌<ℤ◌}
use tt_aiops_platform.Dispatch.Holds.{Hold, Held, edge_allowed_by_hold}
use tt_aiops_platform.Dispatch.Tick.{Work, Key, key_of, Located}
use tt_aiops_platform.Dispatch.Tick.Trucks.{Vehicle, VehInfo}
use tt_aiops_platform.Dispatch.Tick.Edges.{
  Drive, box_held, hold_ok, has_edge, edge_cost, start_place, drive_of, switch_pen, switched_from,
  is_imminent,
}

-- A truck that holds an order meets only works with its box; a truck that holds none meets only works
-- without a box or with a box that no truck holds.
abbrev pub IsAllowed : Held → String → Work → Type 0
IsAllowed held yt w =
    ((h : Hold) → Maps.lookup yt held ≡ some h → w.contno ≡ some h.contno)
    × (Maps.lookup yt held ≡ none
        → (other : String) (h : Hold) → In (other, h) held
        → w.contno ≢ some h.contno)

box_held-In :
    (held : Held) (c : String)
    → box_held held c ≡ true
    → (other : String) × (h : Hold) × In (other, h) held × (h.contno ≡ c)
unfolding box_held
box_held-In [] c q = absurd (cc)
box_held-In ((j, k) ∷ held) c q = elim (Bool-cases (k.contno == c)) [
  | inl e ↦ (j, k, inl refl, (eq_iff k.contno c).0 e)
  | inr e ↦ let (o, h, m, z) = box_held-In held c (rw e at q) in (o, h, inr m, z)
]

box_held-of-In :
    (held : Held) (c other : String) (h : Hold)
    → In (other, h) held
    → h.contno ≡ c
    → box_held held c ≡ true
unfolding box_held
box_held-of-In [] c other h m q = absurd m
box_held-of-In ((j, k) ∷ held) c other h (inl e) q =
    let box : k.contno ≡ h.contno = ap (λ (x : String × Hold). x.1.contno) e in
    let same = (eq_iff k.contno c).1 (box ∙ q) in rw same refl
box_held-of-In ((j, k) ∷ held) c other h (inr m) q =
    let rest = box_held-of-In held c other h m q in ground arith

hold_ok_iff :
    (held : Held) (yt : String) (w : Work) → (hold_ok held yt w ≡ true) ↔ IsAllowed held yt w
unfolding hold_ok edge_allowed_by_hold
hold_ok_iff held yt w = elim (Option-cases (Maps.lookup yt held)) [
  | inl e ↦ elim (Option-cases w.contno) [
    | inl n ↦ ((λ q. ((λ h k. absurd (cc)), (λ z other h m k. cc))), (λ a. rw (e, n) refl))
    | inr (c, n) ↦ elim (Bool-cases (box_held held c)) [
      | inl b ↦
          let (o, h, m, z) = box_held-In held c b in
          ((λ q. absurd (ground arith)), (λ a. absurd (a.1 e o h m (n ∙ ap some (sym z)))))
      | inr b ↦ (
        (λ q. (
          (λ h k. absurd (cc)),
          (λ z other h m k.
              let own : h.contno ≡ c = ground arith in
              let held_too = box_held-of-In held c other h m own in cc),
        )),
        (λ a. rw (e, n, b) refl),
      )
    ]
  ]
  | inr (m, e) ↦ (
    (λ q. (
      (λ h k.
          let own : w.contno ≡ some m.contno =
            ground (arith, opt_eq_iff w.contno (some m.contno)) in
          ground arith),
      (λ z. absurd (cc)),
    )),
    (λ a. let own = a.0 m e in ground (arith, opt_eq_iff w.contno (some m.contno))),
  )
]

-- A known time of the works of the queue `pk`, less than ten minutes away.
abbrev pub IsNear : ℤ → List (Key × ℤ) → Key → Type 0
IsNear now etas pk = (e : ℤ) × (Maps.lookup pk etas ≡ some e) × (e -ℤ now <ℤ pos 600000)

-- The penalty for the queue `key`: none without a queue before and for the same queue, else 1200
-- seconds when the works of the queue before are near, and 180 when not.
abbrev pub IsPenalty : ℤ → List (Key × ℤ) → Option Key → Key → ℕ → Type 0
IsPenalty now etas none key pen = pen ≡ 0
IsPenalty now etas (some pk) key pen =
    ((pk ≡ key) × (pen ≡ 0))
    ⊎ (pk ≢ key) × ((IsNear now etas pk × (pen ≡ 1200)) ⊎ (¬ IsNear now etas pk) × (pen ≡ 180))

is_imminent_iff :
    (now : ℤ) (etas : List (Key × ℤ)) (pk : Key)
    → (is_imminent now etas pk ≡ true) ↔ IsNear now etas pk
unfolding is_imminent
is_imminent_iff now etas pk = elim (Option-cases (Maps.lookup pk etas)) [
  | inl e ↦ ((λ q. absurd (ground arith)), (λ (t, k, lt). absurd (cc)))
  | inr (t, e) ↦
      ((λ q. (t, e, ground arith)), (λ (u, k, lt). let same : u ≡ t = ground arith in ground arith))
]

switch_pen_iff :
    (now : ℤ) (etas : List (Key × ℤ)) (prevk : Option Key) (key : Key) (pen : ℕ)
    → IsPenalty now etas prevk key pen ↔ (switch_pen now etas prevk key ≡ pen)
unfolding switch_pen switched_from
switch_pen_iff now etas none key pen = (sym, sym)
switch_pen_iff now etas (some pk) key pen =
    let near = is_imminent_iff now etas pk in
    let same = triple_eq.beq_iff pk key in
    elim (Bool-cases (pk == key)) [
      | inl e ↦
          let eq : pk ≡ key = same.0 e in
          (
            (λ h.
                let z : pen ≡ 0 = elim h [ inl (q, z) ↦ z | inr (n, r) ↦ absurd (n eq) ] in
                rw (e, switch_pen, switched_from) (sym z)),
            (λ q. inl (eq, sym (rw (e, switch_pen, switched_from) at q))),
          )
      | inr e ↦
          let differ : pk ≢ key = λ q. let k = same.1 q in cc in
          elim (Bool-cases (is_imminent now etas pk)) [
            | inl m ↦ (
              (λ h.
                  let z : pen ≡ 1200 = elim h [
                    | inl (q, z) ↦ absurd (differ q)
                    | inr (n, inl (r, z)) ↦ z
                    | inr (n, inr (r, z)) ↦ absurd (r (near.0 m))
                  ] in
                  rw (e, m, switch_pen, switched_from) (sym z)),
              (λ q. inr (differ, inl (near.0 m, sym (rw (e, m, switch_pen, switched_from) at q)))),
            )
            | inr m ↦
                let far : ¬ IsNear now etas pk = λ r. let k = near.1 r in cc in
                (
                  (λ h.
                      let z : pen ≡ 180 = elim h [
                        | inl (q, z) ↦ absurd (differ q)
                        | inr (n, inl (r, z)) ↦ absurd (far r)
                        | inr (n, inr (r, z)) ↦ z
                      ] in
                      rw (e, m, switch_pen, switched_from) (sym z)),
                  (λ q. inr (differ, inr (far, sym (rw (e, m, switch_pen, switched_from) at q)))),
                )
          ]
    ]

-- A truck that is free drives from where it is, another one from where it sets down, if that is known.
abbrev pub StartsAt : {P : Type 0} → List (String × P) → Vehicle P → VehInfo → P → Type 0
StartsAt drop_pos v i p =
    ((i.free ≡ true) × (p ≡ v.place))
    ⊎ (i.free ≡ false)
      × ((Maps.lookup v.ytno drop_pos ≡ some p)
          ⊎ (Maps.lookup v.ytno drop_pos ≡ none) × (p ≡ v.place))

module _ {P : Type 0} (cost : P → P → Bool → Drive) (drop_pos : List (String × P)) (now : ℤ)
    (etas : List (Key × ℤ)) (prev : List (String × Key)) (held : Held) where
  -- The holds allow the pair, the seconds until the truck is free are known, the drive from where it
  -- starts takes less than 1800 seconds, and `c` is the sum of the two and the penalty.
  abbrev pub IsJoined : Vehicle P × VehInfo → Located P → ℤ → Type 0
  IsJoined (v, i) l c =
      (p : P) × (r : ℤ) × (pen : ℕ) × StartsAt drop_pos v i p
      × IsAllowed held v.ytno l.row
      × (i.remain ≡ some r)
      × ((cost p l.place (l.row.jobtype == "LD")).p50 <ℤ pos 1800)
      × IsPenalty now etas (Maps.lookup v.ytno prev) (key_of l.row) pen
      × (c ≡ r +ℤ (cost p l.place (l.row.jobtype == "LD")).p50 +ℤ pos pen)

  abbrev start : Vehicle P → VehInfo → P
  start v i = start_place cost drop_pos now etas prev held v i

  start_place_iff :
      (v : Vehicle P) (i : VehInfo) (p : P) → StartsAt drop_pos v i p ↔ (start v i ≡ p)
  unfolding start_place
  start_place_iff v i p = elim (Bool-cases i.free) [
    | inl e ↦ (
      (λ h.
          let z : p ≡ v.place = elim h [ inl (f, z) ↦ z | inr (n, r) ↦ absurd (cc) ] in
          rw (e, start_place) (sym z)),
      (λ q. inl (e, sym (rw (e, start_place) at q))),
    )
    | inr e ↦ elim (Option-cases (Maps.lookup v.ytno drop_pos)) [
      | inl m ↦ (
        (λ h.
            let z : p ≡ v.place = elim h [
              | inl (f, z) ↦ absurd (cc)
              | inr (n, inl r) ↦ absurd (cc)
              | inr (n, inr (r, z)) ↦ z
            ] in
            rw (e, m, start_place) (sym z)),
        (λ q. inr (e, inr (m, sym (rw (e, m, start_place) at q)))),
      )
      | inr (d, m) ↦ (
        (λ h.
            let z : d ≡ p = elim h [
              | inl (f, z) ↦ absurd (cc)
              | inr (n, inl r) ↦ ap (λ o. unwrap_or o d) (sym m ∙ r)
              | inr (n, inr (r, z)) ↦ absurd (cc)
            ] in
            rw (e, m, start_place) z),
        (λ q. inr (e, inl (m ∙ ap some (rw (e, m, start_place) at q)))),
      )
    ]
  ]

  -- The code's test and cost are those.
  pub has_edge_iff :
      (x : Vehicle P × VehInfo) (l : Located P) (c : ℤ)
      → IsJoined x l c ↔ (
          (has_edge cost drop_pos now etas prev held x.0 x.1 l ≡ true)
          × (edge_cost cost drop_pos now etas prev held x.0 x.1 l ≡ c))
  unfolding has_edge edge_cost drive_of start_place
  has_edge_iff (v, i) l c =
      let prevk = Maps.lookup v.ytno prev in
      let key = key_of l.row in
      let allowed = hold_ok_iff held v.ytno l.row in
      (
        (λ (p, r, pen, st, al, e, lt, pn, ce).
            let from : start v i ≡ p = (start_place_iff v i p).0 st in
            let ok = allowed.1 al in
            let sw = (switch_pen_iff now etas prevk key pen).0 pn in
            (
              rw (from, ok, e, has_edge, drive_of) (ground arith),
              rw (from, e, sw, edge_cost, drive_of) (sym ce),
            )),
        (λ (ok, q). elim (Option-cases i.remain) [
          | inl e ↦ absurd (ground arith)
          | inr (r, e) ↦ (
            start v i,
            r,
            switch_pen now etas prevk key,
            (start_place_iff v i (start v i)).1 refl,
            allowed.0 (ground arith),
            e,
            ground arith,
            (switch_pen_iff now etas prevk key (switch_pen now etas prevk key)).1 refl,
            sym (rw (e, edge_cost, drive_of) at q),
          )
        ]),
      )
