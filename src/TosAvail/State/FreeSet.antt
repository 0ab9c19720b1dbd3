-- ===== src/TosAvail/State/FreeSet.antt =====
-- Which trucks `free_set` holds.
use tt_aiops_platform.Prelude.{
  ◌≡◌, refl, ◌↔◌, inl, inr, String, true, false, none, some, List, [], ◌∷◌, arith, Any, string_eq,
  ◌==◌, eq_iff, Option-cases, Bool-cases,
}
use tt_aiops_platform.Prelude.Sets
use tt_aiops_platform.Prelude.Maps
use tt_aiops_platform.TosAvail.State.{
  RowKey, JobRow, Machine, State, is_busy, busy_trucks, may_dispatch, collect_free, free_set,
}

collect_free-NoDup :
    (stopped busy : List String) (ms : List (String × Machine))
    → Sets.NoDup (collect_free stopped busy ms)
unfolding collect_free
collect_free-NoDup stopped busy [] = tt
collect_free-NoDup stopped busy ((c, m) ∷ ms) =
    ground (
      arith,
      Sets.insert-NoDup c (collect_free stopped busy ms),
      collect_free-NoDup stopped busy ms,
    )

pub free_set-NoDup : (s : State) → Sets.NoDup (free_set s)
unfolding free_set
free_set-NoDup s = collect_free-NoDup s.stopped (busy_trucks s.rows) s.machines

-- Some row holds the truck with a busy status.
abbrev pub HoldsTruck : String → RowKey × JobRow → Type 0
HoldsTruck y (k, r) = (r.ytno ≡ some y) × (is_busy r.ys ≡ true)

-- The truck is logged in, not stopped, and no job row with a busy status is on it.
pub record IsDispatchable (s : State) (y : String) : Type 0 where
  pub machine : Machine
  pub known : Maps.lookup y s.machines ≡ some machine
  pub logged_in : machine.onoff ≡ "O"
  pub not_stopped : Sets.contains y s.stopped ≡ false
  pub no_job : ¬ Any (HoldsTruck y) s.rows

busy_trucks-Any :
    (rows : List (RowKey × JobRow)) (y : String)
    → Sets.contains y (busy_trucks rows) ≡ true
    → Any (HoldsTruck y) rows
unfolding busy_trucks Sets.contains
busy_trucks-Any [] y h = absurd (cc)
busy_trucks-Any ((k, r) ∷ rows) y h = elim (Bool-cases (is_busy r.ys)) [
  | inl busy ↦ elim (Option-cases r.ytno) [
    | inl free ↦ inr (busy_trucks-Any rows y (ground arith))
    | inr (x, e) ↦ elim (Bool-cases (x == y)) [
      | inl same ↦ inl (cc ((eq_iff x y).0 same), busy)
      | inr other ↦ inr (busy_trucks-Any rows y (ground arith))
    ]
  ]
  | inr done ↦ inr (busy_trucks-Any rows y (ground arith))
]

Any-busy_trucks :
    (rows : List (RowKey × JobRow)) (y : String)
    → Any (HoldsTruck y) rows
    → Sets.contains y (busy_trucks rows) ≡ true
unfolding busy_trucks Sets.contains
Any-busy_trucks [] y h = absurd h
Any-busy_trucks ((k, r) ∷ rows) y (inl h) = ground (arith, eq_iff y y)
Any-busy_trucks ((k, r) ∷ rows) y (inr h) = elim (Option-cases r.ytno) [
  | inl e ↦ ground (arith, Any-busy_trucks rows y h)
  | inr (x, e) ↦ ground (arith, Any-busy_trucks rows y h)
]

contains-collect_free :
    (stopped busy : List String) (ms : List (String × Machine)) (y : String)
    → Maps.Distinct ms
    → Sets.contains y (collect_free stopped busy ms)
      ≡ elim (Maps.lookup y ms) [ none ↦ false | some m ↦ may_dispatch stopped busy y m ]
unfolding collect_free Maps.lookup Sets.contains
contains-collect_free stopped busy [] y d = refl
contains-collect_free stopped busy ((c, m) ∷ ms) y d = ground (
  arith,
  eq_iff c y,
  contains-collect_free stopped busy ms y d.1,
  Maps.has_key-lookup c ms,
  Sets.contains-insert c y (collect_free stopped busy ms),
)

free_set-IsDispatchable :
    (s : State) (y : String)
    → Maps.Distinct s.machines
    → Sets.contains y (free_set s) ≡ true
    → IsDispatchable s y
unfolding free_set may_dispatch
free_set-IsDispatchable s y d h =
    let busy = busy_trucks s.rows in
    elim (Option-cases (Maps.lookup y s.machines)) [
      | inl unknown ↦ absurd (ground (arith, contains-collect_free s.stopped busy s.machines y d))
      | inr (m, e) ↦
          let t : may_dispatch s.stopped busy y m ≡ true =
            cc (contains-collect_free s.stopped busy s.machines y d) in
          record {
            machine = m;
            known = e;
            logged_in = (eq_iff m.onoff "O").0 (ground arith);
            not_stopped = ground arith;
            no_job = λ j. ground (arith, Any-busy_trucks s.rows y j);
          }
    ]

IsDispatchable-free_set :
    (s : State) (y : String)
    → Maps.Distinct s.machines
    → IsDispatchable s y
    → Sets.contains y (free_set s) ≡ true
unfolding free_set may_dispatch
IsDispatchable-free_set s y d h =
    let busy = busy_trucks s.rows in
    elim (Bool-cases (Sets.contains y busy)) [
      | inl b ↦ absurd (h.no_job (busy_trucks-Any s.rows y b))
      | inr b ↦ ground (
        arith,
        contains-collect_free s.stopped busy s.machines y d,
        h.known,
        h.not_stopped,
        (eq_iff h.machine.onoff "O").1 h.logged_in,
      )
    ]

-- When no machine stands twice, the free set holds exactly the trucks that are logged in, not stopped,
-- and on no job row with a busy status, whatever the order of the rows and machines.
pub free_set_iff :
    (s : State) (y : String)
    → Maps.Distinct s.machines
    → (Sets.contains y (free_set s) ≡ true) ↔ IsDispatchable s y
free_set_iff s y d = (free_set-IsDispatchable s y d, IsDispatchable-free_set s y d)
