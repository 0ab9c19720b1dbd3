-- ===== src/TosAvail/Saved.antt =====
-- crates/extractor/src/tos_avail.rs: `AnchorJson`, `anchor_to_json` and `anchor_from_json`, up to the
-- JSON text itself, which a library writes and reads. A `BTreeMap` is a list in the order of its keys.
pub mod Loaded
use tt_aiops_platform.Prelude.{
  ℕ, ◌≡◌, String, Bool, true, false, not, Option, none, some, List, [], ◌∷◌, map, if◌then◌else◌,
  ◌==◌, string_eq, triple_eq, str_lt, Eq,
}
use tt_aiops_platform.Prelude.Maps
use tt_aiops_platform.Prelude.Sets
use tt_aiops_platform.Prelude.Sorting.{sort_by}
use tt_aiops_platform.TosAvail.State.{RowKey, JobRow, Machine, State}
use tt_aiops_platform.TosAvail.Txn.{Instant}
use tt_aiops_platform.TosAvail.Replay.{Logons, Anchor}

-- A tuple of the row's key, truck and status.
pub record SavedRow : Type 0 where
  pub contno : String
  pub point : String
  pub seqno : String
  pub ytno : Option String
  pub ys : String

pub record AnchorJson : Type 0 where
  pub rows : List SavedRow
  pub machines : List (String × (String × Option String))
  pub stopped : List String
  pub scn : ℕ
  pub last_ts : Instant
  pub last_on : Option (List (String × Instant))
  pub last_off : Option (List (String × Instant))

-- Texts and optional texts in the order of tuples, `none` first.
abbrev pub then_text : String → String → Bool → Bool
then_text a b rest = if str_lt a b then true else if a == b then rest else false

abbrev pub then_opt : Option String → Option String → Bool → Bool
then_opt none none rest = rest
then_opt none (some b) rest = true
then_opt (some a) none rest = false
then_opt (some a) (some b) rest = then_text a b rest

unfoldable pub saved_le : SavedRow → SavedRow → Bool
saved_le a b = then_text a.contno b.contno (
    then_text a.point b.point
      (then_text a.seqno b.seqno (then_opt a.ytno b.ytno (not (str_lt b.ys a.ys)))))

abbrev pub key_le : {V : Type 0} → String × V → String × V → Bool
key_le a b = not (str_lt b.0 a.0)

abbrev pub text_le : String → String → Bool
text_le a b = not (str_lt b a)

unfoldable pub save_row : RowKey × JobRow → SavedRow
save_row (k, r) = record { contno = k.0; point = k.1; seqno = k.2; ytno = r.ytno; ys = r.ys }

unfoldable pub load_row : SavedRow → RowKey × JobRow
load_row r = ((r.contno, r.point, r.seqno), record { ytno = r.ytno; ys = r.ys })

abbrev pub save_machine : String × Machine → String × (String × Option String)
save_machine (c, m) = (c, (m.onoff, m.pool))

abbrev pub load_machine : String × (String × Option String) → String × Machine
load_machine (c, v) = (c, record { onoff = v.0; pool = v.1 })

module _ {K V : Type 0} ⦃e : Eq K⦄ where
  -- `collect` into a map, where a later entry replaces an earlier one.
  unfoldable pub collect_map : List (K × V) → List (K × V) → List (K × V)
  unfolding Maps.insert
  collect_map [] m = m
  collect_map ((k, v) ∷ kvs) m = collect_map kvs (Maps.insert k v m)

unfoldable pub collect_set : List String → List String → List String
unfolding Sets.insert
collect_set [] s = s
collect_set (x ∷ xs) s = collect_set xs (Sets.insert x s)

abbrev pub save_logons :
    Option Logons → (Logons → List (String × Instant)) → Option (List (String × Instant))
save_logons none part = none
save_logons (some l) part = some (sort_by key_le (part l))

unfoldable pub anchor_to_json : Anchor → AnchorJson
anchor_to_json a = record {
  rows = sort_by saved_le (map save_row a.state.rows);
  machines = sort_by key_le (map save_machine a.state.machines);
  stopped = sort_by text_le a.state.stopped;
  scn = a.scn;
  last_ts = a.last_ts;
  last_on = save_logons a.logons (λ l. l.last_on);
  last_off = save_logons a.logons (λ l. l.last_off);
}

-- Both maps are there, or no logons are known.
unfoldable pub load_logons :
    Option (List (String × Instant)) → Option (List (String × Instant)) → Option Logons
load_logons (some on) (some off) =
    some (record { last_on = collect_map on []; last_off = collect_map off [] })
load_logons _ _ = none

unfoldable pub anchor_from_json : Instant → AnchorJson → Anchor
unfolding collect_map collect_set load_row load_logons
anchor_from_json as_of j = record {
  as_of = as_of;
  state = record {
    rows = collect_map (map load_row j.rows) [];
    machines = collect_map (map load_machine j.machines) [];
    stopped = collect_set j.stopped [];
  };
  scn = j.scn;
  last_ts = j.last_ts;
  logons = load_logons j.last_on j.last_off;
}
