-- ===== src/TosAvail/Saved/Loaded.antt =====
-- A saved anchor is loaded as it was: the same maps, sets and numbers.
use tt_aiops_platform.Prelude.{
  ◌≡◌, refl, sym, ◌∙◌, ap, subst, String, Bool, true, false, Option, none, some, List, [], ◌∷◌, map,
  if◌then◌else◌, ◌==◌, string_eq, triple_eq, Eq, arith, Bool-cases, inl, inr,
}
use tt_aiops_platform.Prelude.Maps
use tt_aiops_platform.Prelude.Sets
use tt_aiops_platform.Prelude.Sorting.{sort_by, insert_by}
use tt_aiops_platform.TosAvail.State.{RowKey, JobRow, Machine}
use tt_aiops_platform.TosAvail.Txn.{Instant}
use tt_aiops_platform.TosAvail.Replay.{Logons, Anchor}
use tt_aiops_platform.TosAvail.Saved

module _ {X K V : Type 0} ⦃e : Eq K⦄ (le : X → X → Bool) (f : X → K × V) where
  has_key-insert_by :
      (k : K) (x : X) (xs : List X)
      → Maps.has_key k (map f (insert_by le x xs))
        ≡ (if (f x).0 == k then true else Maps.has_key k (map f xs))
  unfolding insert_by Maps.has_key
  has_key-insert_by k x [] = refl
  has_key-insert_by k x (y ∷ xs) = elim (Bool-cases (le x y)) [
    | inl l ↦ rw (l, map) refl
    | inr l ↦ rw (l, map) (ground (arith, has_key-insert_by k x xs))
  ]

  -- An entry may stand anywhere, as long as its key stands nowhere else.
  lookup-insert_by :
      (k : K) (x : X) (xs : List X)
      → Maps.has_key (f x).0 (map f xs) ≡ false
      → Maps.lookup k (map f (insert_by le x xs))
        ≡ (if (f x).0 == k then some (f x).1 else Maps.lookup k (map f xs))
  unfolding insert_by Maps.lookup Maps.has_key
  lookup-insert_by k x [] h = refl
  lookup-insert_by k x (y ∷ xs) h = elim (Bool-cases (le x y)) [
    | inl l ↦ rw (l, map) refl
    | inr l ↦
        rw (l, map)
          (ground (
            arith,
            lookup-insert_by k x xs,
            e.beq_iff (f x).0 k,
            e.beq_iff (f y).0 k,
            e.beq_iff (f y).0 (f x).0,
          ))
  ]

  Distinct-insert_by :
      (x : X) (xs : List X)
      → Maps.has_key (f x).0 (map f xs) ≡ false
      → Maps.Distinct (map f xs)
      → Maps.Distinct (map f (insert_by le x xs))
  unfolding insert_by Maps.has_key
  Distinct-insert_by x [] h d = (refl, tt)
  Distinct-insert_by x (y ∷ xs) h d = elim (Bool-cases (le x y)) [
    | inl l ↦ rw (l, map, Maps.Distinct) (h, d)
    | inr l ↦
        rw (l, map, Maps.Distinct)
          (
            ground (
              arith,
              has_key-insert_by (f y).0 x xs,
              e.beq_iff (f x).0 (f y).0,
              e.beq_iff (f y).0 (f x).0,
              d.0,
            ),
            Distinct-insert_by x xs (ground arith) d.1,
          )
  ]

  has_key-sort :
      (k : K) (xs : List X) → Maps.has_key k (map f (sort_by le xs)) ≡ Maps.has_key k (map f xs)
  unfolding sort_by Maps.has_key
  has_key-sort k [] = refl
  has_key-sort k (x ∷ xs) = ground (arith, has_key-insert_by k x (sort_by le xs), has_key-sort k xs)

  lookup-sort :
      (k : K) (xs : List X)
      → Maps.Distinct (map f xs)
      → Maps.lookup k (map f (sort_by le xs)) ≡ Maps.lookup k (map f xs)
  unfolding sort_by Maps.lookup
  lookup-sort k [] d = refl
  lookup-sort k (x ∷ xs) d = ground (
    arith,
    lookup-insert_by k x (sort_by le xs) (has_key-sort (f x).0 xs ∙ d.0),
    lookup-sort k xs d.1,
  )

  Distinct-sort : (xs : List X) → Maps.Distinct (map f xs) → Maps.Distinct (map f (sort_by le xs))
  unfolding sort_by
  Distinct-sort [] d = tt
  Distinct-sort (x ∷ xs) d =
      Distinct-insert_by x (sort_by le xs) (has_key-sort (f x).0 xs ∙ d.0) (Distinct-sort xs d.1)

module _ {K V : Type 0} ⦃e : Eq K⦄ where
  lookup-collect_onto :
      (k : K) (kvs m : List (K × V))
      → Maps.Distinct kvs
      → Maps.lookup k (Saved.collect_map kvs m)
        ≡ (if Maps.has_key k kvs then Maps.lookup k kvs else Maps.lookup k m)
  unfolding Saved.collect_map Maps.lookup Maps.has_key
  lookup-collect_onto k [] m d = refl
  lookup-collect_onto k ((j, v) ∷ kvs) m d = ground (
    arith,
    lookup-collect_onto k kvs (Maps.insert j v m) d.1,
    Maps.lookup-insert j k v m,
    e.beq_iff j k,
    d.0,
  )

  lookup-collect_map :
      (k : K) (kvs : List (K × V))
      → Maps.Distinct kvs
      → Maps.lookup k (Saved.collect_map kvs []) ≡ Maps.lookup k kvs
  unfolding Maps.lookup
  lookup-collect_map k kvs d =
      ground (arith, lookup-collect_onto k kvs [] d, Maps.has_key-lookup k kvs)

  -- Sorted for saving and collected again, a map has the same entries.
  lookup-saved :
      {X : Type 0} (le : X → X → Bool) (f : X → K × V) (k : K) (xs : List X)
      → Maps.Distinct (map f xs)
      → Maps.lookup k (Saved.collect_map (map f (sort_by le xs)) []) ≡ Maps.lookup k (map f xs)
  lookup-saved le f k xs d =
      lookup-collect_map k (map f (sort_by le xs)) (Distinct-sort le f xs d)
      ∙ lookup-sort le f k xs d

contains-insert_by :
    (le : String → String → Bool) (y x : String) (xs : List String)
    → Sets.contains y (insert_by le x xs) ≡ (if x == y then true else Sets.contains y xs)
unfolding insert_by Sets.contains
contains-insert_by le y x [] = refl
contains-insert_by le y x (z ∷ xs) = elim (Bool-cases (le x z)) [
  | inl l ↦ rw (l, Sets.contains) refl
  | inr l ↦ rw (l, Sets.contains) (ground (arith, contains-insert_by le y x xs))
]

contains-sort :
    (le : String → String → Bool) (y : String) (xs : List String)
    → Sets.contains y (sort_by le xs) ≡ Sets.contains y xs
unfolding sort_by Sets.contains
contains-sort le y [] = refl
contains-sort le y (x ∷ xs) =
    ground (arith, contains-insert_by le y x (sort_by le xs), contains-sort le y xs)

contains-collect_set :
    (y : String) (xs s : List String)
    → Sets.contains y (Saved.collect_set xs s)
      ≡ (if Sets.contains y xs then true else Sets.contains y s)
unfolding Saved.collect_set Sets.contains
contains-collect_set y [] s = refl
contains-collect_set y (x ∷ xs) s =
    ground (arith, contains-collect_set y xs (Sets.insert x s), Sets.contains-insert x y s)

map_id : {A : Type 0} (xs : List A) → map (λ x. x) xs ≡ xs
map_id [] = refl
map_id (x ∷ xs) = ap (λ l. x ∷ l) (map_id xs)

load-save_rows :
    (rows : List (RowKey × JobRow)) → map Saved.load_row (map Saved.save_row rows) ≡ rows
unfolding Saved.load_row Saved.save_row
load-save_rows [] = refl
load-save_rows ((k, r) ∷ rows) = ap (λ l. (k, r) ∷ l) (load-save_rows rows)

load-save_machines :
    (ms : List (String × Machine)) → map Saved.load_machine (map Saved.save_machine ms) ≡ ms
load-save_machines [] = refl
load-save_machines ((c, m) ∷ ms) = ap (λ l. (c, m) ∷ l) (load-save_machines ms)

-- The logons of an anchor name each truck once.
abbrev pub AreDistinct : Option Logons → Type 0
AreDistinct none = Unit
AreDistinct (some l) = Maps.Distinct l.last_on × Maps.Distinct l.last_off

-- Both are unknown, or they have the same times for the truck.
abbrev pub AreAlike : String → Option Logons → Option Logons → Type 0
AreAlike c none none = Unit
AreAlike c (some l) (some m) =
    (Maps.lookup c l.last_on ≡ Maps.lookup c m.last_on)
    × (Maps.lookup c l.last_off ≡ Maps.lookup c m.last_off)
AreAlike c _ _ = ⊥

lookup-times :
    (c : String) (m : List (String × Instant))
    → Maps.Distinct m
    → Maps.lookup c (Saved.collect_map (sort_by Saved.key_le m) []) ≡ Maps.lookup c m
lookup-times c m d =
    rw (map_id (sort_by Saved.key_le m), map_id m) at
      (lookup-saved Saved.key_le (λ x. x) c m (subst Maps.Distinct (sym (map_id m)) d))

load-save_logons :
    (c : String) (l : Option Logons)
    → AreDistinct l
    → AreAlike c
        (Saved.load_logons
          (Saved.save_logons l (λ x. x.last_on))
          (Saved.save_logons l (λ x. x.last_off)))
        l
unfolding Saved.load_logons
load-save_logons c none d = tt
load-save_logons c (some l) d = (lookup-times c l.last_on d.0, lookup-times c l.last_off d.1)

-- An anchor whose maps name each key once is loaded as it was saved: the same row for every key, the
-- same machine, stop and logon times for every truck, the same commit number and times.
pub anchor_from_json-anchor_to_json :
    (a : Anchor) (k : RowKey) (c : String)
    → Maps.Distinct a.state.rows
    → Maps.Distinct a.state.machines
    → AreDistinct a.logons
    → let b = Saved.anchor_from_json a.as_of (Saved.anchor_to_json a) in
      (Maps.lookup k b.state.rows ≡ Maps.lookup k a.state.rows)
      × (Maps.lookup c b.state.machines ≡ Maps.lookup c a.state.machines)
      × (Sets.contains c b.state.stopped ≡ Sets.contains c a.state.stopped)
      × AreAlike c b.logons a.logons
      × (b.as_of ≡ a.as_of)
      × (b.scn ≡ a.scn)
      × (b.last_ts ≡ a.last_ts)
unfolding Saved.anchor_from_json Saved.anchor_to_json Sets.contains
anchor_from_json-anchor_to_json a k c rows_differ machines_differ logons_differ =
    let rows = load-save_rows a.state.rows in
    let machines = load-save_machines a.state.machines in
    (
      lookup-saved Saved.saved_le Saved.load_row k (map Saved.save_row a.state.rows)
            (subst Maps.Distinct (sym rows) rows_differ)
          ∙ ap (Maps.lookup k) rows,
      lookup-saved Saved.key_le Saved.load_machine c (map Saved.save_machine a.state.machines)
            (subst Maps.Distinct (sym machines) machines_differ)
          ∙ ap (Maps.lookup c) machines,
      ground (
        arith,
        contains-collect_set c (sort_by Saved.text_le a.state.stopped) [],
        contains-sort Saved.text_le c a.state.stopped,
      ),
      load-save_logons c a.logons logons_differ,
      refl,
      refl,
      refl,
    )
