-- ===== src/Dispatch/Assign/Placed.antt =====
-- The loop over the rows: each row gets a column, and the potentials stay tight.
use tt_aiops_platform.Prelude.{
  ℕ, zero, suc, ◌+◌, ◌-◌, ◌*◌, ◌≡◌, ◌≢◌, ◌≤◌, ◌<◌, refl, sym, ap, subst, ◌∙◌, true, false, some,
  List, inl, length, length-set, length-replicate, get_or, get_or-set_same, get_or-set_other, set,
  replicate, copies, copies-set, copies-get_or, eq_of_copies, place_of_copies, one_if_same, arith,
}
use tt_aiops_platform.Prelude.Int.{ℤ, pos, pos_part, neg_part}
use tt_aiops_platform.Dispatch.Cover.Search.{unseen}
use tt_aiops_platform.Dispatch.Cover.Served.{unseen-replicate}
use tt_aiops_platform.Dispatch.Assign.{Search, Hungarian, cell, inf, augment, place_row, place_rows}
use tt_aiops_platform.Dispatch.Assign.Augment.{Leads, PathFits, IsAugmented, augment-IsAugmented}
use tt_aiops_platform.Dispatch.Assign.Dual.{
  Leaves, IsCosts, IsPlacing, IsDual, InTree, IsReached, IsSearch,
}
use tt_aiops_platform.Dispatch.Assign.Grown.{IsGrown, grow-IsGrown}

pub get_or-replicate {ℓ} : {A : Type ℓ} (k x : ℕ) (v w : A) → x < k → get_or (replicate k v) x w ≡ v
get_or-replicate zero x v w lt = absurd (omega arith)
get_or-replicate (suc k) zero v w lt = refl
get_or-replicate (suc k) (suc x) v w lt = get_or-replicate k x v w (omega arith)

-- The row `r` stands `k` times in the columns from 1 on.
abbrev pub Stands : ℕ → ℕ → List ℕ → Type 0
Stands k r p = copies r p ≡ k + one_if_same r (get_or p 0 0)

module _ (a : List (List ℤ)) (n m c : ℕ) where
  -- The state after `d` rows.
  pub record IsPlaced (d : ℕ) (h : Hungarian) : Type 0 where
    pub len_p : length h.p ≡ suc m
    pub len_way : length h.way ≡ suc m
    pub dual : IsDual a n m d h.p h.u h.v
    pub v_low : (x : ℕ) → 1 ≤ x → x ≤ m → neg_part (get_or h.v x (pos 0)) ≤ d * c
    pub once : (r : ℕ) → 1 ≤ r → r ≤ d → Stands 1 r h.p
    pub none_yet : (r : ℕ) → d < r → Stands 0 r h.p
    pub free : copies 0 h.p + d ≡ m + one_if_same 0 (get_or h.p 0 0)

  module _ (d : ℕ) (h : Hungarian) (placed : IsPlaced d h) (room : d < n) (wide : n ≤ m) where
    abbrev p1 : List ℕ
    p1 = set h.p 0 (suc d)

    p1_0 : get_or p1 0 0 ≡ suc d
    p1_0 = get_or-set_same h.p 0 (suc d) 0 (omega (arith, placed.len_p))

    p1_later : (x : ℕ) → 1 ≤ x → get_or p1 x 0 ≡ get_or h.p x 0
    p1_later x lo = get_or-set_other h.p 0 x (suc d) 0 (ground arith)

    copies-p1 :
        (r : ℕ)
        → copies r p1 + one_if_same r (get_or h.p 0 0) ≡ copies r h.p + one_if_same r (suc d)
    copies-p1 r = copies-set r 0 (suc d) h.p (omega (arith, placed.len_p))

    len_p1 : length p1 ≡ suc m
    len_p1 = length-set h.p 0 (suc d) ∙ placed.len_p

    row_le1 : (x : ℕ) → x ≤ m → get_or p1 x 0 ≤ suc d
    row_le1 x le =
        let r = get_or p1 x 0 in
        ground (arith, copies-get_or x p1 (omega (arith, len_p1)), copies-p1 r, placed.none_yet r)

    at_most_once : (r : ℕ) → r ≢ 0 → copies r p1 ≤ 1
    at_most_once r other = ground (arith, copies-p1 r, placed.none_yet r, placed.once r)

    inj1 : (x y : ℕ) → x ≤ m → y ≤ m → get_or p1 x 0 ≢ 0 → get_or p1 x 0 ≡ get_or p1 y 0 → x ≡ y
    inj1 x y hx hy other q =
        eq_of_copies (get_or p1 x 0) x y p1 (omega (arith, len_p1)) (omega (arith, len_p1)) refl
          (sym q) (at_most_once (get_or p1 x 0) other)

    free_column : (f : ℕ) × IsPlacing n m (suc d) f p1
    free_column =
        let (f, lt, q) = place_of_copies 0 p1 (ground (arith, copies-p1 0, placed.free)) in
        (
          f,
          record {
            len_p = len_p1;
            row_0 = p1_0;
            low_i = omega arith;
            high_i = omega arith;
            row_le = row_le1;
            inj = inj1;
            low_f = ground (arith, p1_0, q);
            high_f = omega (arith, len_p1);
            row_f = q;
          },
        )

    IsDual-p1 : IsDual a n m (suc d) p1 h.u h.v
    IsDual-p1 = record {
      len_u = placed.dual.len_u;
      len_v = placed.dual.len_v;
      feasible = placed.dual.feasible;
      tight = λ x lo hi row.
          subst (λ r. Leaves (cell a r x) (get_or h.u r (pos 0)) (get_or h.v x (pos 0)) (pos 0))
            (sym (p1_later x lo)) (placed.dual.tight x lo hi (λ z. row (p1_later x lo ∙ z)));
      v_neg = placed.dual.v_neg;
      v_free = λ x lo hi q. placed.dual.v_free x lo hi (sym (p1_later x lo) ∙ q);
      u_new = λ r lo hi. placed.dual.u_new r (omega arith) hi;
    }

    abbrev start : Search
    start = record {
      minv = replicate (suc m) inf;
      used = replicate (suc m) false;
      way = h.way;
      u = h.u;
      v = h.v;
    }

    start-IsSearch : IsSearch a n m (suc d) p1 (d * c) start 0
    start-IsSearch =
        let u_i : get_or h.u (suc d) (pos 0) ≡ pos 0 =
          placed.dual.u_new (suc d) (omega arith) (omega arith) in
        let unused = λ (x : ℕ) (le : x ≤ m). get_or-replicate (suc m) x false true (omega arith) in
        record {
          dual = IsDual-p1;
          len_minv = length-replicate (suc m) inf;
          len_used = length-replicate (suc m) false;
          len_way = placed.len_way;
          v_low = λ x lo hi. omega (arith, placed.v_low x lo hi);
          u_pos = ap neg_part u_i;
          in_range = omega arith;
          not_used = refl;
          has_row = λ x k. absurd (ground (arith, unused x k.0, k.1));
          bound = λ y x k lo hi e. absurd (ground (arith, unused y k.0, k.1));
          tree = λ x k. absurd (ground (arith, unused x k.0, k.1));
          tip = record {
            link = λ other. absurd (other refl);
            steps = (0, omega (arith, unseen-replicate (suc m)), refl);
          };
          stage = inl (record {
            at_0 = refl;
            none_used = unused;
            u_0 = u_i;
            all_inf = λ x lo hi. get_or-replicate (suc m) x inf (pos 0) (omega arith);
          });
        }

  -- What a column needs of its row, once the search is over.
  abbrev Suits : List ℤ → List ℤ → ℕ → ℕ → Type 0
  Suits u v r x =
      (r ≢ 0 → Leaves (cell a r x) (get_or u r (pos 0)) (get_or v x (pos 0)) (pos 0))
      × (r ≡ 0 → get_or v x (pos 0) ≡ pos 0)

  path-PathFits :
      (i b j1 : ℕ) (p : List ℕ) (s : Search)
      → IsSearch a n m i p b s j1
      → (k x : ℕ) → Leads (InTree a n m i p s.used) s.way k x
      → (x ≢ 0 → IsReached a n m i p s.used s.way s.u s.v x (pos 0))
      → PathFits (InTree a n m i p s.used) s.way (Suits s.u s.v) p k x
  path-PathFits i b j1 p s h zero x l link = tt
  path-PathFits i b j1 p s h (suc k) x l link = (
    ((λ row. (link l.0).1), (λ z. absurd (h.has_row (get_or s.way x 0) l.1 z))),
    path-PathFits i b j1 p s h k (get_or s.way x 0) l.2 (h.tree (get_or s.way x 0) l.1).link,
  )

  -- The search is over at the column `j1`.
  module _ (d f j1 : ℕ) (h : Hungarian) (placed : IsPlaced d h) (room : d < n) (wide : n ≤ m)
      (costs : IsCosts a n m c) (placing : IsPlacing n m (suc d) f (p1 d h placed room wide))
      (s : Search) (g : IsGrown a n m (suc d) (p1 d h placed room wide) (d * c) s j1) where
    abbrev q1 : List ℕ
    q1 = p1 d h placed room wide

    abbrev Augmented : List ℕ → Type 0
    Augmented = IsAugmented (InTree a n m (suc d) q1 s.used) s.way (Suits s.u s.v) (suc m) j1 q1

    augments : (p' : List ℕ) × (augment (suc m) s.way j1 q1 ≡ some p') × Augmented p'
    augments = let (k, le, leads) = g.search.tip.steps in go k le leads
      where
        go :
            (k : ℕ)
            → k + unseen s.used ≤ suc m
            → Leads (InTree a n m (suc d) q1 s.used) s.way k j1
            → (p' : List ℕ) × (augment (suc m) s.way j1 q1 ≡ some p') × Augmented p'
        go zero le leads = absurd (omega (arith, g.forward))
        go (suc k) le leads =
            augment-IsAugmented (InTree a n m (suc d) q1 s.used) s.way (Suits s.u s.v) (suc m) k
              (suc m) j1 q1 (len_p1 d h placed room wide) (λ x t. omega (arith, t.0))
              (omega (arith, g.search.in_range)) (omega arith) leads
              (path-PathFits (suc d) (d * c) j1 q1 s g.search (suc k) j1 leads g.search.tip.link)
              (λ x lo hi other. (
                (λ row. g.search.dual.tight x lo (omega arith) row),
                (λ z. g.search.dual.v_free x lo (omega arith) z),
              ))

    -- The potential of the row placed is at most a cost.
    u_le : pos_part (get_or s.u (suc d) (pos 0)) ≤ c
    u_le = omega (
      arith,
      g.search.dual.feasible (suc d) f placing.low_i placing.high_i placing.low_f placing.high_f,
      ap pos_part (g.search.dual.v_free f placing.low_f placing.high_f placing.row_f),
      ap neg_part (g.search.dual.v_free f placing.low_f placing.high_f placing.row_f),
      g.search.u_pos,
      costs.at_most (suc d) f placing.low_i placing.high_i placing.low_f placing.high_f,
    )

    after-IsPlaced :
        (p' : List ℕ)
        → Augmented p'
        → IsPlaced (suc d) (record { u = s.u; v = s.v; p = p'; way = s.way })
    after-IsPlaced p' z =
        let rows = copies-p1 d h placed room wide in
        let ends : get_or q1 j1 0 ≡ 0 = g.no_row in
        record {
          len_p = z.same_length ∙ len_p1 d h placed room wide;
          len_way = g.search.len_way;
          dual = record {
            len_u = g.search.dual.len_u;
            len_v = g.search.dual.len_v;
            feasible = g.search.dual.feasible;
            tight = λ x lo hi row. (z.fits x lo (omega arith)).0 row;
            v_neg = g.search.dual.v_neg;
            v_free = λ x lo hi q. (z.fits x lo (omega arith)).1 q;
            u_new = g.search.dual.u_new;
          };
          v_low = λ x lo hi. omega (arith, g.search.v_low x lo hi, u_le);
          once = λ r lo hi.
              ground (arith, z.same_rows r, ends, rows r, placed.once r, placed.none_yet r);
          none_yet = λ r lo. ground (arith, z.same_rows r, ends, rows r, placed.none_yet r);
          free = ground (arith, z.same_rows 0, ends, rows 0, placed.free);
        }

  module _ (costs : IsCosts a n m c) (wide : n ≤ m) (small : n * c < 2305843009213693951) where
    mul_split : (d k : ℕ) → d * c + c ≤ (d + suc k) * c
    mul_split d k = omega arith

    budget : (d : ℕ) → d < n → d * c + c < 2305843009213693951
    budget d lt =
        let split = mul_split d (n - suc d) in
        let whole : d + suc (n - suc d) ≡ n = omega arith in
        omega (arith, subst (λ z. d * c + c ≤ z * c) whole split)

    place_row-IsPlaced :
        (d : ℕ) (h : Hungarian)
        → d < n
        → IsPlaced d h
        → (h' : Hungarian) × (place_row a m (suc d) h ≡ some h') × IsPlaced (suc d) h'
    unfolding place_row
    place_row-IsPlaced d h room placed =
        let (f, placing) = free_column d h placed room wide in
        let q = p1 d h placed room wide in
        let (s, j1, e, g) =
          grow-IsGrown a n m (suc d) q c (d * c) f costs placing (budget d room) (suc m)
            (start d h placed room wide) 0 (omega (arith, unseen-replicate (suc m)))
            (start-IsSearch d h placed room wide) (λ z. absurd (omega (arith, placing.row_0))) in
        let (p', e2, z) = augments d f j1 h placed room wide costs placing s g in
        (
          record { u = s.u; v = s.v; p = p'; way = s.way },
          rw (e, place_row) (rw (e2, place_row) refl),
          after-IsPlaced d f j1 h placed room wide costs placing s g p' z,
        )

    pub place_rows-IsPlaced :
        (k d : ℕ) (h : Hungarian)
        → d + k ≡ n
        → IsPlaced d h
        → (h' : Hungarian) × (place_rows a m (suc d) k h ≡ some h') × IsPlaced n h'
    unfolding place_rows
    place_rows-IsPlaced zero d h e placed =
        (h, refl, subst (λ z. IsPlaced z h) (omega arith) placed)
    place_rows-IsPlaced (suc k) d h e placed =
        let (h1, q, placed1) = place_row-IsPlaced d h (omega arith) placed in
        let (h2, q2, placed2) = place_rows-IsPlaced k (suc d) h1 (omega arith) placed1 in
        (h2, rw (q, place_rows) q2, placed2)
