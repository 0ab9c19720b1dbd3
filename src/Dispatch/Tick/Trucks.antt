-- ===== src/Dispatch/Tick/Trucks.antt =====
-- crates/api/src/livemap.rs, `spawn_stage2_shadow`: `veh_info`, which trucks of a tick are free now or
-- soon, and in how many seconds.
use tt_aiops_platform.Prelude.{
  ℕ, ◌+◌, ◌≡◌, String, Bool, true, false, not, ◌&&◌, ◌||◌, Option, some, List, [], ◌∷◌, length,
  select, if◌then◌else◌, is_some, is_none, and_then, ◌==◌, string_eq, arith,
}
use tt_aiops_platform.Prelude.Maps
use tt_aiops_platform.Prelude.Int.{ℤ, pos}
use tt_aiops_platform.Dispatch.SoonFree.{soon_free_pred_bucket, soon_free_quantile}

-- An entry of `vehicles`: the truck, its position, the seconds until it is free, its state.
pub record Vehicle (P : Type 0) : Type 0 where
  pub ytno : String
  pub place : P
  pub free_in_s : ℤ
  pub state : String

-- `PoolRow`: the fields that `pool_class` reads.
pub record PoolRow : Type 0 where
  pub ytno : String
  pub reason : String
  pub jobtype : Option String
  pub free_in_s : ℤ

pub record VehInfo : Type 0 where
  pub free : Bool
  pub remain : Option ℤ
  pub jobtype : Option String

unfoldable pub pool_class : List PoolRow → List (String × PoolRow) → List (String × PoolRow)
pool_class [] m = m
pool_class (r ∷ rows) m = pool_class rows (Maps.insert r.ytno r m)

-- `F`: a 32-bit float, with its order and `SOON_FREE_REMAIN_P`; `reliability`: the lookup in the table.
module _ {F : Type 0} (ge : F → F → Bool) (remain_p : F)
    (reliability : String → String → ℤ → Option (List F)) (classes : List (String × PoolRow)) where
  -- The seconds until a truck with this row is free, from what such trucks really took.
  unfoldable pub remain_of : PoolRow → Option ℤ
  remain_of r =
      and_then
        (and_then r.jobtype
          (λ jobtype. reliability r.reason jobtype (soon_free_pred_bucket r.free_in_s)))
        (λ f. soon_free_quantile ge f remain_p)

  unfoldable pub veh_info : {P : Type 0} → Vehicle P → VehInfo
  veh_info v =
      let cls = Maps.lookup v.ytno classes in
      let jobtype = and_then cls (λ r. r.jobtype) in
      if v.state == "free_tos" || v.state == "free_gps"
      then record { free = true; remain = some (pos 0); jobtype = jobtype }
      else record { free = false; remain = and_then cls remain_of; jobtype = jobtype }

unfoldable pub n_free : List VehInfo → ℕ
n_free infos = length (select (λ x. x.free) infos)

unfoldable pub n_soon : List VehInfo → ℕ
n_soon infos = length (select (λ x. not x.free && is_some x.remain) infos)

unfoldable pub n_soon_unknown : List VehInfo → ℕ
n_soon_unknown infos = length (select (λ x. not x.free && is_none x.remain) infos)

-- Every truck counts as free now, as free soon, or as not known.
n_free_lem :
    (infos : List VehInfo) → n_free infos + n_soon infos + n_soon_unknown infos ≡ length infos
unfolding n_free n_soon n_soon_unknown
n_free_lem [] = omega arith
n_free_lem (x ∷ infos) = ground (arith, n_free_lem infos)
