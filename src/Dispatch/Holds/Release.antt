-- ===== src/Dispatch/Holds/Release.antt =====
-- What `release_held` keeps, and what it closes.
use mathlib.Core.List.Perm
use mathlib.Core.List.{Perm, perm_middle}
use tt_aiops_platform.Prelude.{
  ℕ, ◌≡◌, refl, ◌↔◌, inl, inr, String, Bool, false, Option, none, some, List, [], ◌∷◌, ◌++◌, arith,
  Option-cases, Bool-cases, if◌then◌else◌, string_eq, is_none, eq_iff,
}
use tt_aiops_platform.Prelude.Maps
use tt_aiops_platform.Prelude.Sorting.{sort_by-perm}
use tt_aiops_platform.Dispatch.Holds.{
  Hold, Held, Closed, closed_le, keep_or_close, release_why, retain_held, release_held,
}
use tt_aiops_platform.Dispatch.Holds.Orders.{msg_ids, closed_ids, closed_ids-perm, HasEvidence}

keep_or_close-perm :
    (w : Option String) (yt : String) (h : Hold) (rest : Held × List Closed) {ids : List String}
    → Perm (msg_ids rest.0 ++ closed_ids rest.1) ids
    → Perm
        (msg_ids (keep_or_close w yt h rest).0 ++ closed_ids (keep_or_close w yt h rest).1)
        (h.msg_id ∷ ids)
unfolding keep_or_close
keep_or_close-perm none yt h rest p = Perm.cons h.msg_id p
keep_or_close-perm (some w) yt h rest p =
    Perm.trans (perm_middle (msg_ids rest.0) (closed_ids rest.1)) (Perm.cons h.msg_id p)

module _ (list_as_of_ms : Option ℕ) (listed : String → String → Bool)
    (busy : String → Hold → Bool) where
  abbrev why : String → Hold → Option String
  why = release_why list_as_of_ms listed busy

  abbrev retain : Held → Held × List Closed
  retain = retain_held list_as_of_ms listed busy

  retain_held-perm : (m : Held) → Perm (msg_ids (retain m).0 ++ closed_ids (retain m).1) (msg_ids m)
  unfolding retain_held
  retain_held-perm [] = Perm.refl []
  retain_held-perm ((yt, h) ∷ m) =
      keep_or_close-perm (why yt h) yt h (retain m) (retain_held-perm m)

  -- Every held order is kept or closed, and none both: the ids are the same, as often.
  pub release_held-perm :
      (held : Held)
      → let (kept, out) = release_held list_as_of_ms listed busy held in
        Perm (msg_ids kept ++ closed_ids out) (msg_ids held)
  unfolding release_held
  release_held-perm held =
      closed_ids-perm (msg_ids (retain held).0) (sort_by-perm closed_le (retain held).1)
        (retain_held-perm held)

  has_key-retain :
      (yt : String) (m : Held) → Maps.has_key yt m ≡ false → Maps.has_key yt (retain m).0 ≡ false
  unfolding retain_held Maps.has_key
  has_key-retain yt [] h = refl
  has_key-retain yt ((j, w) ∷ m) h = ground (arith, has_key-retain yt m)

  lookup-retain-none :
      (yt : String) (m : Held) → Maps.has_key yt m ≡ false → Maps.lookup yt (retain m).0 ≡ none
  lookup-retain-none yt m h =
      ground (arith, has_key-retain yt m h, Maps.has_key-lookup yt (retain m).0)

  -- The hold of a truck after the pass.
  lookup-retain :
      (yt : String) (h : Hold) (m : Held)
      → Maps.Distinct m
      → Maps.lookup yt m ≡ some h
      → Maps.lookup yt (retain m).0 ≡ (if is_none (why yt h) then some h else none)
  unfolding retain_held Maps.lookup
  lookup-retain yt h [] d e = cc
  lookup-retain yt h ((j, w) ∷ m) d e =
      ground (arith, lookup-retain yt h m d.1, eq_iff j yt, lookup-retain-none j m d.0)

  why-HasEvidence :
      (yt : String) (h : Hold) → HasEvidence list_as_of_ms busy yt h → is_none (why yt h) ≡ false
  unfolding release_why
  why-HasEvidence yt h (inl (a, e, late)) = ground arith
  why-HasEvidence yt h (inr b) = ground arith

  HasEvidence-why :
      (yt : String) (h : Hold) → is_none (why yt h) ≡ false → HasEvidence list_as_of_ms busy yt h
  unfolding release_why
  HasEvidence-why yt h e = elim (Bool-cases (busy yt h)) [
    | inl b ↦ inr b
    | inr b ↦ elim (Option-cases list_as_of_ms) [
      | inl unknown ↦ absurd (ground arith)
      | inr (a, known) ↦ inl (a, known, ground arith)
    ]
  ]

  -- Of a truck that holds an order, in a map that names each truck once: with evidence it is released,
  -- and only then; without evidence it keeps its hold.
  pub release_held-lookup :
      (held : Held) (yt : String) (h : Hold)
      → Maps.Distinct held
      → Maps.lookup yt held ≡ some h
      → let kept = (release_held list_as_of_ms listed busy held).0 in
        ((Maps.lookup yt kept ≡ none) ↔ HasEvidence list_as_of_ms busy yt h)
        × ((Maps.lookup yt kept ≡ some h) ↔ (¬ HasEvidence list_as_of_ms busy yt h))
  unfolding release_held
  release_held-lookup held yt h d e = elim (Bool-cases (is_none (why yt h))) [
    | inl stays ↦ (
      (
        λ gone. absurd (cc (lookup-retain yt h held d e)),
        λ known. absurd (cc (why-HasEvidence yt h known)),
      ),
      (λ _ known. cc (why-HasEvidence yt h known), λ _. cc (lookup-retain yt h held d e)),
    )
    | inr leaves ↦ (
      (λ _. HasEvidence-why yt h leaves, λ _. cc (lookup-retain yt h held d e)),
      (
        λ kept. absurd (cc (lookup-retain yt h held d e)),
        λ unknown. absurd (unknown (HasEvidence-why yt h leaves)),
      ),
    )
  ]
