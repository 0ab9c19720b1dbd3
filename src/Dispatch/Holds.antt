-- ===== src/Dispatch/Holds.antt =====
-- crates/api/src/livemap.rs: the holds on sent orders. `edge_allowed_by_hold`, `apply_written`,
-- `release_held`, `restore_holds`, and the choice of the rows to send in `spawn_stage2_shadow`.
-- A map from trucks to holds is an association list; its order stands for the hash map's.
pub mod Orders
pub mod Release
pub mod Restore
pub mod Written
pub mod Latest
pub mod Restart
use tt_aiops_platform.Prelude.{
  ℕ, ◌+◌, ◌-◌, String, Bool, true, false, not, ◌&&◌, Option, none, some, List, [], ◌∷◌, ltb, eqb,
  if◌then◌else◌, is_some_and, Result, ok, err, opt_eq, str_lt, ◌==◌, string_eq,
}
use tt_aiops_platform.Prelude.Maps
use tt_aiops_platform.Prelude.Sorting.{sort_by}
use tt_aiops_platform.Dispatch.Signals.{HoldKind}

pub record Hold : Type 0 where
  pub contno : String
  pub sent_ms : ℕ
  pub msg_id : String
  pub kind : HoldKind

-- `HashMap<String, Hold>`: which order a truck holds.
abbrev pub Held : Type 0
Held = List (String × Hold)

-- A closed order: its id and the reason.
abbrev pub Closed : Type 0
Closed = String × String

unfoldable pub edge_allowed_by_hold : Option String → Option String → Bool → Bool
edge_allowed_by_hold none w_contno box_held = not box_held
edge_allowed_by_hold (some c) w_contno box_held = opt_eq w_contno (some c)

pub record SentRow : Type 0 where
  pub kind : HoldKind
  pub ytno : String
  pub contno : String
  pub jobtype : Option String
  pub qc : Option String
  pub peer : Option ℕ

unfoldable pub hold_of_row : SentRow → String → ℕ → Hold
hold_of_row r id ms = record { contno = r.contno; sent_ms = ms; msg_id = id; kind = r.kind }

-- The push of the replaced hold, if there was one.
unfoldable pub push_superseded : Option Hold → List Closed → List Closed
push_superseded none out = out
push_superseded (some old) out = (old.msg_id, "superseded") ∷ out

-- The loop of `apply_written` over the rows and their ids.
unfoldable pub hold_rows : Held → List SentRow → List String → ℕ → Held × List Closed
unfolding hold_of_row push_superseded Maps.insert Maps.lookup
hold_rows held [] ids ms = (held, [])
hold_rows held (r ∷ rs) [] ms = (held, [])
hold_rows held (r ∷ rs) (id ∷ ids) ms =
    let (after, out) = hold_rows (Maps.insert r.ytno (hold_of_row r id ms) held) rs ids ms in
    (after, push_superseded (Maps.lookup r.ytno held) out)

unfoldable pub apply_written {ℓ} :
    {E : Type ℓ} → Held → List SentRow → Result E (List String × ℕ) → Held × Result E (List Closed)
unfolding hold_rows
apply_written held rows (err e) = (held, err e)
apply_written held rows (ok (ids, ms)) =
    let (after, out) = hold_rows held rows ids ms in (after, ok out)

abbrev pub hold_release_margin_ms : ℕ
hold_release_margin_ms = 2000

-- Tuples of texts in the order of `sort`.
unfoldable pub closed_le : Closed → Closed → Bool
unfolding str_lt
closed_le a b = if str_lt a.0 b.0 then true else if a.0 == b.0 then not (str_lt b.1 a.1) else false

-- The end of the closure of `retain`, for the entry `yt ↦ h`.
unfoldable pub keep_or_close :
    Option String → String → Hold → Held × List Closed → Held × List Closed
keep_or_close none yt h rest = ((yt, h) ∷ rest.0, rest.1)
keep_or_close (some w) yt h rest = (rest.0, (h.msg_id, w) ∷ rest.1)

module _ (list_as_of_ms : Option ℕ) (listed : String → String → Bool)
    (busy : String → Hold → Bool) where
  -- Why a hold is released; `none` keeps it.
  unfoldable pub release_why : String → Hold → Option String
  release_why yt h =
      if is_some_and list_as_of_ms (λ a. ltb (h.sent_ms + hold_release_margin_ms) a)
      then some (if listed yt h.contno then "listed" else "not_listed")
      else if busy yt h
      then some "truck_busy"
      else none

  -- The pass of `retain`, which keeps the holds without a reason and collects the others.
  unfoldable pub retain_held : Held → Held × List Closed
  unfolding keep_or_close
  retain_held [] = ([], [])
  retain_held ((yt, h) ∷ m) = keep_or_close (release_why yt h) yt h (retain_held m)

  unfoldable pub release_held : Held → Held × List Closed
  release_held held = let (kept, out) = retain_held held in (kept, sort_by closed_le out)

-- A truck of the tick and whether it is free now.
pub record Candidate : Type 0 where
  pub ytno : String
  pub free_now : Bool

-- The fields of a work bucket that an order carries.
pub record WorkItem : Type 0 where
  pub contno : Option String
  pub jobtype : String
  pub qc : String

unfoldable pub assign_row : Candidate → WorkItem → String → SentRow
assign_row v w c = record {
  kind = HoldKind.assign;
  ytno = v.ytno;
  contno = c;
  jobtype = some w.jobtype;
  qc = some w.qc;
  peer = none;
}

-- The orders of a tick: pairs with a truck that is free now, a known box, and no order held yet.
unfoldable pub new_rows : Held → List (Candidate × WorkItem) → List SentRow
unfolding assign_row Maps.has_key
new_rows held [] = []
new_rows held ((v, w) ∷ pairs) =
    let rest = new_rows held pairs in
    if v.free_now
    then elim w.contno [
      | none ↦ rest
      | some c ↦ if Maps.has_key v.ytno held then rest else assign_row v w c ∷ rest
    ]
    else rest

pub record OpenSent : Type 0 where
  pub msg_id : String
  pub kind : HoldKind
  pub ytno : String
  pub contno : String
  pub sent_ms : ℕ

abbrev pub restore_max_age_ms : ℕ
restore_max_age_ms = 3600000

-- Later orders first; of orders sent together, the smaller id.
unfoldable pub open_le : OpenSent → OpenSent → Bool
unfolding str_lt
open_le a b =
    if ltb b.sent_ms a.sent_ms
    then true
    else if eqb b.sent_ms a.sent_ms
    then not (str_lt b.msg_id a.msg_id)
    else false

unfoldable pub hold_of_open : OpenSent → Hold
hold_of_open r = record { contno = r.contno; sent_ms = r.sent_ms; msg_id = r.msg_id; kind = r.kind }

-- `now_ms - sent_ms > RESTORE_MAX_AGE_MS`; a negative difference, which stops at 0 here, is not.
unfoldable pub is_expired : ℕ → OpenSent → Bool
is_expired now_ms r = ltb restore_max_age_ms (now_ms - r.sent_ms)

-- The loop of `restore_holds` over the sorted rows.
unfoldable pub restore_rows : ℕ → List OpenSent → Held → Held × List Closed
restore_rows now_ms [] held = (held, [])
restore_rows now_ms (r ∷ rs) held =
    let skipped = restore_rows now_ms rs held in
    let taken = restore_rows now_ms rs (Maps.insert r.ytno (hold_of_open r) held) in
    if is_expired now_ms r
    then (skipped.0, (r.msg_id, "expired_on_restore") ∷ skipped.1)
    else if Maps.has_key r.ytno held
    then (skipped.0, (r.msg_id, "superseded") ∷ skipped.1)
    else taken

unfoldable pub restore_holds {ℓ} :
    {E : Type ℓ} → Result E (List OpenSent) → ℕ → Option (Held × List Closed)
unfolding restore_rows open_le closed_le hold_of_open is_expired Maps.insert Maps.has_key
restore_holds (err e) now_ms = none
restore_holds (ok rows) now_ms =
    let (held, close) = restore_rows now_ms (sort_by open_le rows) [] in
    some (held, sort_by closed_le close)
