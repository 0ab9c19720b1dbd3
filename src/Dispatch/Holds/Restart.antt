-- ===== src/Dispatch/Holds/Restart.antt =====
-- A restart: the holds are read back from the open orders that stand for them.
use tt_aiops_platform.Prelude.{
  ℕ, ◌≡◌, subst, inl, inr, String, false, some, List, [], ◌∷◌, arith, Option-cases, string_eq,
  eq_iff, ok, In,
}
use tt_aiops_platform.Prelude.Maps
use tt_aiops_platform.Dispatch.Holds.{
  Hold, Held, Closed, OpenSent, hold_of_open, is_expired, restore_holds,
}
use tt_aiops_platform.Dispatch.Holds.Latest.{restore_holds-ComesFrom, restore_holds-latest}

-- The open order of a held truck.
abbrev pub open_of : String → Hold → OpenSent
open_of yt h = record {
  msg_id = h.msg_id;
  kind = h.kind;
  ytno = yt;
  contno = h.contno;
  sent_ms = h.sent_ms;
}

abbrev pub open_rows : Held → List OpenSent
open_rows [] = []
open_rows ((yt, h) ∷ m) = open_of yt h ∷ open_rows m

-- No held order is older than the limit of a restore.
abbrev pub NoneExpired : ℕ → Held → Type 0
NoneExpired now_ms [] = Unit
NoneExpired now_ms ((yt, h) ∷ m) = (is_expired now_ms (open_of yt h) ≡ false) × NoneExpired now_ms m

In-open_rows :
    (held : Held) (yt : String) (h : Hold)
    → Maps.lookup yt held ≡ some h
    → In (open_of yt h) (open_rows held)
unfolding Maps.lookup
In-open_rows [] yt h e = absurd (cc)
In-open_rows ((j, w) ∷ m) yt h e = ground (arith, eq_iff j yt, In-open_rows m yt h)

lookup-open_rows :
    (held : Held) (r : OpenSent)
    → Maps.Distinct held
    → In r (open_rows held)
    → Maps.lookup r.ytno held ≡ some (hold_of_open r)
unfolding Maps.lookup hold_of_open
lookup-open_rows [] r d m = absurd m
lookup-open_rows ((j, w) ∷ m) r d (inl e) =
    subst (λ q. Maps.lookup q.ytno ((j, w) ∷ m) ≡ some (hold_of_open q)) e
      (ground (arith, eq_iff j j))
lookup-open_rows ((j, w) ∷ m) r d (inr k) =
    ground (arith, eq_iff j r.ytno, Maps.has_key-lookup j m, lookup-open_rows m r d.1 k)

fresh_of :
    (now_ms : ℕ) (held : Held) (yt : String) (h : Hold)
    → NoneExpired now_ms held
    → Maps.lookup yt held ≡ some h
    → is_expired now_ms (open_of yt h) ≡ false
unfolding Maps.lookup
fresh_of now_ms [] yt h n e = absurd (cc)
fresh_of now_ms ((j, w) ∷ m) yt h n e = ground (arith, eq_iff j yt, fresh_of now_ms m yt h n.1)

-- When no truck stands twice among the held ones and no order is too old, what a restore from their
-- open orders gives holds for every truck exactly what it held.
pub restart-lookup {ℓ} :
    (E : Type ℓ) (held after : Held) (close : List Closed) (now_ms : ℕ) (yt : String)
    → Maps.Distinct held
    → NoneExpired now_ms held
    → restore_holds {E = E} (ok (open_rows held)) now_ms ≡ some (after, close)
    → Maps.lookup yt after ≡ Maps.lookup yt held
restart-lookup E held after close now_ms yt d n e = elim (Option-cases (Maps.lookup yt held)) [
  | inl none_held ↦ elim (Option-cases (Maps.lookup yt after)) [
    | inl none_after ↦ cc
    | inr (h, found) ↦
        let (r, m, named, fresh, made) =
          restore_holds-ComesFrom E (open_rows held) now_ms after close yt h e found in
        cc (lookup-open_rows held r d m)
  ]
  | inr (h, held_e) ↦
      let q = open_of yt h in
      let (h', found, le, (r, m, named, fresh, made)) =
        restore_holds-latest E (open_rows held) now_ms after close q e
          (In-open_rows held yt h held_e) (fresh_of now_ms held yt h n held_e) in
      cc (lookup-open_rows held r d m)
]
