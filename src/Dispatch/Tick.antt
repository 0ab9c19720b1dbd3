-- ===== src/Dispatch/Tick.antt =====
-- crates/api/src/livemap.rs: what a tick of `spawn_stage2_shadow` computes between its queries: the
-- works with a place and a time. The rows of the work list are those of crates/api/src/workpool.rs.
pub mod Tiers
pub mod Pool
pub mod Trucks
pub mod Edges
pub mod Greedy
pub mod Match
pub mod Swapping
mod Examples
use tt_aiops_platform.Prelude.{
  ℕ, suc, ◌+◌, ◌≡◌, String, Bool, Option, none, some, List, [], ◌∷◌, length, All, if◌then◌else◌,
  ◌==◌, string_eq, arith, Option-cases, inl, inr, and_then, or_else,
}
use tt_aiops_platform.Prelude.Maps
use tt_aiops_platform.Prelude.Int.{ℤ}

-- `Stage2Work`: the fields that the tick reads; times in milliseconds.
pub record Work : Type 0 where
  pub qc : String
  pub vessel : String
  pub queuename : String
  pub jobtype : String
  pub src_block : Option String
  pub n : ℤ
  pub work_eta_ts : Option ℤ
  pub deadline_ts : Option ℤ
  pub proc_s : Option ℤ
  pub dispatch_deadline_ts : Option ℤ
  pub tos_assigned : Bool
  pub contno : Option String
  pub contnos : List String

-- The key of a queue: crane, vessel and name.
abbrev pub Key : Type 0
Key = String × String × String

unfoldable pub key_of : Work → Key
key_of w = (w.qc, w.vessel, w.queuename)

-- An entry of `works`, with the row itself in place of its index. `P` is a coordinate, a pair of floats.
pub record Located (P : Type 0) : Type 0 where
  pub row : Work
  pub place : P
  pub eta : ℤ

-- `works`, `works_no_coord` and `works_no_eta`.
pub record WorkList (P : Type 0) : Type 0 where
  pub works : List (Located P)
  pub no_coord : ℕ
  pub no_eta : ℕ

module _ {P : Type 0} (cranes centroids : List (String × P)) where
  unfoldable pub coord_of : Work → Option P
  coord_of w =
      if w.jobtype == "LD"
      then and_then w.src_block (λ b. Maps.lookup b centroids)
      else or_else (Maps.lookup w.qc cranes) (Maps.lookup w.qc centroids)

  -- The closure of `filter_map` on one row, with the works of the rows after it.
  unfoldable pub locate : Work → WorkList P → WorkList P
  locate w rest = elim (coord_of w) [
    | none ↦ record rest { no_coord = suc rest.no_coord }
    | some place ↦ elim w.work_eta_ts [
      | none ↦ record rest { no_eta = suc rest.no_eta }
      | some eta ↦ record rest { works = record { row = w; place = place; eta = eta } ∷ rest.works }
    ]
  ]

  unfoldable pub locate_all : List Work → WorkList P
  locate_all [] = record { works = []; no_coord = 0; no_eta = 0 }
  locate_all (w ∷ work) = locate w (locate_all work)
