-- ===== src/Dispatch/Holds/Orders.antt =====
-- The ids of held and of closed orders, and what counts as evidence for the release of a hold.
use mathlib.Core.List.Perm
use mathlib.Core.List.{Perm, perm_middle}
use tt_aiops_platform.Prelude.{
  ℕ, ◌+◌, ◌<◌, ◌≡◌, ◌⊎◌, String, Bool, true, Option, some, List, [], ◌∷◌, ◌++◌, map, inl, inr,
  Bool-cases, ◌==◌, string_eq,
}
use tt_aiops_platform.Prelude.Maps
use tt_aiops_platform.Dispatch.Holds.{Hold, Held, Closed, push_superseded, hold_release_margin_ms}

abbrev pub msg_ids : Held → List String
msg_ids [] = []
msg_ids ((yt, h) ∷ m) = h.msg_id ∷ msg_ids m

abbrev pub closed_ids : List Closed → List String
closed_ids = map (λ c. c.0)

-- Sorting the closed orders leaves their ids the same.
pub closed_ids-perm :
    (ids : List String) {xs ys : List Closed} {all : List String}
    → Perm xs ys
    → Perm (ids ++ closed_ids ys) all
    → Perm (ids ++ closed_ids xs) all
closed_ids-perm ids p q = Perm.trans (Perm.append_left ids (Perm.map (λ c. c.0) p)) q

-- The ids after one truck's hold is replaced.
pub insert-perm :
    (yt : String) (h : Hold) (m : Held)
    → Perm
        (closed_ids (push_superseded (Maps.lookup yt m) []) ++ msg_ids (Maps.insert yt h m))
        (h.msg_id ∷ msg_ids m)
unfolding Maps.insert Maps.lookup push_superseded
insert-perm yt h [] = Perm.refl (h.msg_id ∷ [])
insert-perm yt h ((j, w) ∷ m) = elim (Bool-cases (j == yt)) [
  | inl e ↦ rw e (Perm.swap h.msg_id w.msg_id (msg_ids m))
  | inr e ↦ rw e (
      Perm.trans (perm_middle _ (msg_ids (Maps.insert yt h m))) (
        Perm.trans (Perm.cons w.msg_id (insert-perm yt h m))
          (Perm.swap h.msg_id w.msg_id (msg_ids m))))
]

-- A work list made after the order was sent, with the margin, or a busy signal of the truck.
abbrev pub HasEvidence : Option ℕ → (String → Hold → Bool) → String → Hold → Type 0
HasEvidence list_as_of_ms busy yt h =
    ((a : ℕ) × (list_as_of_ms ≡ some a) × (h.sent_ms + hold_release_margin_ms < a))
    ⊎ (busy yt h ≡ true)
