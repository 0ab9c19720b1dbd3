-- ===== src/Dispatch/Tick/Swapping/Rows.antt =====
-- The rows of the orders of the swap stage, and the swaps that are made.
use tt_aiops_platform.Prelude.{
  Bool, ℕ, zero, suc, ◌≡◌, ◌+◌, ◌*◌, ◌⊎◌, String, true, some, List, [], ◌∷◌, All, All-imp,
  get_elem?, inl, inr, refl, ap, sym, unwrap_or, length, err, Result-cases, subst, select, arith,
  Result, ok,
}
use tt_aiops_platform.Dispatch.Signals.{HoldKind}
use tt_aiops_platform.Dispatch.Swaps.{Swap}
use tt_aiops_platform.Dispatch.Holds.{Held, SentRow, apply_written}
use tt_aiops_platform.Prelude.Int.{ℤ}
use tt_aiops_platform.Dispatch.Tick.Edges.{Drive}
use tt_aiops_platform.Dispatch.Tick.Swapping.Timely.{swap_picks-IsWorthwhile}
use tt_aiops_platform.Dispatch.Tick.Swapping.{
  SwapCand, has_boxes, swap_row, pair_rows, swap_rows, write_rows, made, swap_picks, send_swaps,
}

module _ {P : Type 0} (swap_cands : List (SwapCand P)) where
  -- The indices of the swap are those of candidates whose boxes are known.
  abbrev pub IsOfTwo : Swap → Type 0
  IsOfTwo s =
      (a : SwapCand P) × (b : SwapCand P) × (ca : String) × (cb : String) × (get_elem? swap_cands
          s.i
        ≡ some a)
      × (get_elem? swap_cands s.j ≡ some b)
      × (a.contno ≡ some ca)
      × (b.contno ≡ some cb)

  -- The row is an order of a swap that sends the truck of `a` to the box of `b`, which is `c`, and names
  -- the row at `peer`.
  abbrev pub SendsTo : SwapCand P → SwapCand P → String → ℕ → SentRow → Type 0
  SendsTo a b c peer r =
      (r.kind ≡ HoldKind.swap)
      × (r.ytno ≡ a.ytno)
      × (b.contno ≡ some c)
      × (r.contno ≡ c)
      × (r.jobtype ≡ some b.jobtype)
      × (r.qc ≡ some b.qc)
      × (r.peer ≡ some peer)

  -- The rows at `2 * k` and the place after it send each truck of the swap to the other's box, and
  -- each names the place of the other as its peer; `o` is the number of swaps before.
  abbrev pub ArePeers : ℕ → List SentRow → ℕ → Swap → Type 0
  ArePeers o rows k s =
      (a : SwapCand P) × (b : SwapCand P) × (ca : String) × (cb : String) × (there : SentRow)
      × (back : SentRow) × (get_elem? swap_cands s.i ≡ some a)
      × (get_elem? swap_cands s.j ≡ some b)
      × (get_elem? rows (2 * k) ≡ some there)
      × (get_elem? rows (2 * k + 1) ≡ some back)
      × SendsTo a b cb (2 * (o + k) + 1) there
      × SendsTo b a ca (2 * (o + k)) back

  swap_row-SendsTo :
      (a b : SwapCand P) (c : String) (peer peer' : ℕ)
      → b.contno ≡ some c
      → peer ≡ peer'
      → SendsTo a b c peer' (swap_row a b peer)
  unfolding swap_row
  swap_row-SendsTo a b c peer peer' e q =
      (refl, refl, e, ap (λ o. unwrap_or o "") e, refl, refl, ap some q)

  swap_rows-ArePeers :
      (o : ℕ) (picks : List Swap)
      → All IsOfTwo picks
      → (k : ℕ) (s : Swap) → get_elem? picks k ≡ some s
      → ArePeers o (swap_rows swap_cands o picks) k s
  unfolding swap_rows pair_rows
  swap_rows-ArePeers o [] h k s e = absurd (cc)
  swap_rows-ArePeers o (p ∷ picks) h zero s e =
      let (a, b, ca, cb, i, j, ba, bb) = h.0 in
      let same : p ≡ s = ground arith in
      subst (λ x. ArePeers o (swap_rows swap_cands o (p ∷ picks)) zero x) same
        (
          a,
          b,
          ca,
          cb,
          swap_row a b (2 * o + 1),
          swap_row b a (2 * o),
          i,
          j,
          rw (i, j, swap_rows, pair_rows) refl,
          rw (i, j, swap_rows, pair_rows) refl,
          swap_row-SendsTo a b cb (2 * o + 1) (2 * (o + 0) + 1) bb (omega arith),
          swap_row-SendsTo b a ca (2 * o) (2 * (o + 0)) ba (omega arith),
        )
  swap_rows-ArePeers o (p ∷ picks) h (suc k) s e =
      let (a, b, ca, cb, i, j, ba, bb) = h.0 in
      let (c, d, cc', cd, there, back, ci, dj, first, second, to, fro) =
        swap_rows-ArePeers (suc o) picks h.1 k s e in
      let n : suc o + k ≡ o + suc k = omega arith in
      let even : 2 * suc k ≡ suc (suc (2 * k)) = omega arith in
      let odd : 2 * suc k + 1 ≡ suc (suc (2 * k + 1)) = omega arith in
      (
        c,
        d,
        cc',
        cd,
        there,
        back,
        ci,
        dj,
        rw (even, i, j, swap_rows, pair_rows) first,
        rw (odd, i, j, swap_rows, pair_rows) second,
        subst (λ m. SendsTo c d cd (2 * m + 1) there) n to,
        subst (λ m. SendsTo d c cc' (2 * m) back) n fro,
      )

  -- Two rows for each swap.
  length-swap_rows :
      (o : ℕ) (picks : List Swap)
      → All IsOfTwo picks
      → length (swap_rows swap_cands o picks) ≡ 2 * length picks
  unfolding swap_rows pair_rows
  length-swap_rows o [] h = omega arith
  length-swap_rows o (p ∷ picks) h =
      let (a, b, ca, cb, i, j, ba, bb) = h.0 in
      let rest = length-swap_rows (suc o) picks h.1 in
      rw (i, j, swap_rows, pair_rows) (omega (arith, rest))

  -- The boxes of all swaps are known, so none is left out.
  select-has_boxes : (ss : List Swap) → All IsOfTwo ss → select (has_boxes swap_cands) ss ≡ ss
  unfolding has_boxes
  select-has_boxes [] h = refl
  select-has_boxes (s ∷ ss) h =
      let (a, b, ca, cb, i, j, ba, bb) = h.0 in
      let known : has_boxes swap_cands s ≡ true = rw (i, j, ba, bb, has_boxes) refl in
      rw (known, select) (ap (λ xs. s ∷ xs) (select-has_boxes ss h.1))

  module _ {ℓ} {E : Type ℓ} (write : List SentRow → Result E (List String × ℕ)) (held : Held) where
    -- Nothing is made and nothing changes, since there is no swap or the database refused the rows.
    abbrev pub IsDropped : List Swap → Held × List Swap → Type ℓ
    IsDropped picks r =
        (r.0 ≡ held)
        × (r.1 ≡ [])
        × ((picks ≡ []) ⊎ ((e : E) × (write (swap_rows swap_cands 0 picks) ≡ err e)))

    -- The database has written the rows of the swaps `picks`, two for each and each the other's peer,
    -- and they are held; exactly these swaps are made.
    abbrev pub IsSent : List Swap → Held × List Swap → Type ℓ
    IsSent picks r =
        (ids : List String) × (ms : ℕ) × (write (swap_rows swap_cands 0 picks) ≡ ok (ids, ms))
        × (r.0 ≡ (apply_written {E = E} held (swap_rows swap_cands 0 picks) (ok (ids, ms))).0)
        × (r.1 ≡ picks)
        × (length (swap_rows swap_cands 0 picks) ≡ 2 * length picks)
        × ((k : ℕ) (s : Swap)
            → get_elem? picks k ≡ some s
            → ArePeers 0 (swap_rows swap_cands 0 picks) k s)

    -- The rows are written, or nothing is made.
    write_rows-cases :
        (picks : List Swap) (r : SentRow) (rs rows : List SentRow)
        → rows ≡ r ∷ rs
        → ((write_rows write held picks rows ≡ (held, [])) × ((e : E) × (write rows ≡ err e)))
          ⊎ ((ids : List String) × (ms : ℕ) × (write rows ≡ ok (ids, ms))
              × (write_rows write held picks rows
                  ≡ ((apply_written {E = E} held rows (ok (ids, ms))).0, picks)))
    unfolding write_rows made apply_written
    write_rows-cases picks r rs rows q = rw q (elim (Result-cases (write (r ∷ rs))) [
      | inl ((ids, ms), e) ↦
          inr (ids, ms, e, ap (λ w. made picks (apply_written held (r ∷ rs) w)) e)
      | inr (x, e) ↦ inl (ap (λ w. made picks (apply_written held (r ∷ rs) w)) e, (x, e))
    ])

    write_rows-IsSent :
        (picks : List Swap)
        → All IsOfTwo picks
        → IsDropped picks (write_rows write held picks (swap_rows swap_cands 0 picks))
          ⊎ IsSent picks (write_rows write held picks (swap_rows swap_cands 0 picks))
    unfolding write_rows swap_rows pair_rows
    write_rows-IsSent [] h = inl (refl, refl, inl refl)
    write_rows-IsSent (p ∷ picks) h =
        let (a, b, ca, cb, i, j, ba, bb) = h.0 in
        let first = swap_row a b 1 in
        let rest = swap_row b a 0 ∷ swap_rows swap_cands 1 picks in
        let shape : swap_rows swap_cands 0 (p ∷ picks) ≡ first ∷ rest =
          rw (i, j, swap_rows, pair_rows) refl in
        elim (write_rows-cases (p ∷ picks) first rest (swap_rows swap_cands 0 (p ∷ picks)) shape) [
          | inl (q, refused) ↦ inl (ap (λ r. r.0) q, ap (λ r. r.1) q, inr refused)
          | inr (ids, ms, e, q) ↦ inr (
            ids,
            ms,
            e,
            ap (λ r. r.0) q,
            ap (λ r. r.1) q,
            length-swap_rows 0 (p ∷ picks) h,
            swap_rows-ArePeers 0 (p ∷ picks) h,
          )
        ]

    send_swaps-IsSent :
        (ss : List Swap)
        → All IsOfTwo ss
        → IsDropped ss (send_swaps write swap_cands true held ss)
          ⊎ IsSent ss (send_swaps write swap_cands true held ss)
    unfolding send_swaps
    send_swaps-IsSent [] h = inl (refl, refl, inl refl)
    send_swaps-IsSent (s ∷ ss) h =
        subst
          (λ xs.
            let r = write_rows write held xs (swap_rows swap_cands 0 xs) in
            IsDropped (s ∷ ss) r ⊎ IsSent (s ∷ ss) r)
          (sym (select-has_boxes (s ∷ ss) h)) (write_rows-IsSent (s ∷ ss) h)

    -- When orders are sent, either no swap is made and the held orders stay as they are, and this only
    -- when the tick has no swap or the database refuses the rows; or the database has written two rows
    -- for each swap of the tick, orders of the kind swap, one sending its first truck to the box of its
    -- second with that box's kind of work and crane, the other the second to the box of the first, each
    -- naming the place of the other row as its peer, and exactly the swaps of the tick are made and
    -- these rows held.
    pub send_swaps-swap_picks :
        (cost : P → P → Bool → Drive) (now_ms : ℤ) (lead_extra need : List (String × ℤ))
        → let picks = swap_picks cost now_ms lead_extra need swap_cands in
          IsDropped picks (send_swaps write swap_cands true held picks)
          ⊎ IsSent picks (send_swaps write swap_cands true held picks)
    send_swaps-swap_picks cost now_ms lead_extra need =
        let picks = swap_picks cost now_ms lead_extra need swap_cands in
        send_swaps-IsSent picks (
          All-imp
            (λ s (a, b, i, j, (cb, n, eb, k, t), (ca, m, ea, l, u), g, w).
              (a, b, ca, cb, i, j, ea, eb))
            picks (swap_picks-IsWorthwhile cost now_ms lead_extra need swap_cands).0)
