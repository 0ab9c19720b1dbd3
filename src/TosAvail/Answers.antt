-- ===== src/TosAvail/Answers.antt =====
-- The theorems on the fetched answer and on the saved anchor at a concrete answer and anchor.
use Prim.Native.Char.{Char}
use tt_aiops_platform.Prelude.{
  ℕ, ◌+◌, ◌≡◌, ◌↔◌, refl, String, true, Option, some, none, List, [], ◌∷◌, triple_eq, string_eq,
  length, ok,
}
use tt_aiops_platform.Prelude.Maps
use tt_aiops_platform.Prelude.Sets
use tt_aiops_platform.Core.Shift.{terminal_to_utc}
use tt_aiops_platform.TosAvail.State.{RowKey, free_set}
use tt_aiops_platform.TosAvail.State.FreeSet.{IsDispatchable}
use tt_aiops_platform.TosAvail.Txn.{Instant}
use tt_aiops_platform.TosAvail.Replay.{Anchor, Snapshot}
use tt_aiops_platform.TosAvail.Fetch.{
  RawRow, Fetched, parse_fetch, collect_rows, nothing_yet, accept, parse_myt,
}
use tt_aiops_platform.TosAvail.Fetch.Guards.{
  IsSane, count_history, parse_fetch-IsSane, parse_fetch-free_set,
}
use tt_aiops_platform.TosAvail.Saved.{anchor_to_json, anchor_from_json}
use tt_aiops_platform.TosAvail.Saved.Loaded.{AreAlike, AreDistinct, anchor_from_json-anchor_to_json}

-- Any 14 digits are read as one time.
abbrev read_naive : List ℕ → Option Instant
read_naive ds = some (5000000 + 28800000000)

abbrev raw : String → Option String → Option String → Option String → RawRow
raw k a b c = record {
  k = k;
  a = a;
  b = b;
  c = c;
  d = none;
  e = none;
  f = none;
  g = none;
  h = none;
  i = none;
  j = none;
}

abbrev letters : List Char
letters = "0" ∷ "1" ∷ "2" ∷ "3" ∷ "4" ∷ "5" ∷ "6" ∷ "7" ∷ "8" ∷ "9" ∷ []

-- One truck logged in for each second letter.
abbrev trucks_of : Char → List Char → List RawRow → List RawRow
trucks_of a [] rest = rest
trucks_of a (b ∷ bs) rest =
    raw "M" (some (String.◌∷◌ a (String.◌∷◌ b String.[]))) none (some "O") ∷ trucks_of a bs rest

abbrev trucks : List Char → List RawRow
trucks [] = []
trucks (a ∷ as') = trucks_of a letters (trucks as')

-- The time, a change without its fields, a job row and a hundred trucks.
abbrev answer : List RawRow
answer =
    raw "T" (some "20261001075200") none none
    ∷ raw "H" none none none
    ∷ raw "B" (some "BOX1") (some "F") (some "1")
    ∷ trucks letters

abbrev fetched : Fetched
fetched = collect_rows read_naive answer nothing_yet

abbrev snapshot : Snapshot
snapshot = record {
  as_of = 5000000;
  state = fetched.state;
  last_on = fetched.last_on;
  last_off = fetched.last_off;
}

answer-accepted : parse_fetch read_naive answer ≡ ok (snapshot, fetched.changes)
unfolding parse_fetch accept parse_myt terminal_to_utc
answer-accepted = refl

parse_fetch-IsSane_example :
    IsSane snapshot.state
    × (length fetched.changes + (fetched.bad_scn + fetched.bad_hist) ≡ count_history answer)
parse_fetch-IsSane_example =
    parse_fetch-IsSane read_naive answer snapshot fetched.changes answer-accepted

parse_fetch-free_set_example :
    (Sets.contains "42" (free_set snapshot.state) ≡ true) ↔ IsDispatchable snapshot.state "42"
parse_fetch-free_set_example =
    parse_fetch-free_set read_naive answer snapshot fetched.changes "42" answer-accepted

abbrev box_1 : RowKey
box_1 = ("BOX1", "F", "1")

abbrev anchor : Anchor
anchor = record {
  as_of = 1000;
  state = record {
    rows = (box_1, record { ytno = some "T1"; ys = "A" }) ∷ [];
    machines =
        ("T2", record { onoff = "O"; pool = none })
        ∷ ("T1", record { onoff = "O"; pool = some "P" })
        ∷ [];
    stopped = "T2" ∷ [];
  };
  scn = 10;
  last_ts = 950;
  logons = some (record { last_on = ("T1", 700) ∷ []; last_off = [] });
}

rows-Distinct : Maps.Distinct anchor.state.rows
unfolding Maps.has_key
rows-Distinct = (refl, tt)

machines-Distinct : Maps.Distinct anchor.state.machines
unfolding Maps.has_key
machines-Distinct = (refl, (refl, tt))

logons-AreDistinct : AreDistinct anchor.logons
unfolding Maps.has_key
logons-AreDistinct = ((refl, tt), tt)

anchor_from_json-anchor_to_json_example :
    (Maps.lookup box_1 (anchor_from_json 1000 (anchor_to_json anchor)).state.rows
      ≡ Maps.lookup box_1 anchor.state.rows)
    × (Maps.lookup "T1" (anchor_from_json 1000 (anchor_to_json anchor)).state.machines
        ≡ Maps.lookup "T1" anchor.state.machines)
    × (Sets.contains "T1" (anchor_from_json 1000 (anchor_to_json anchor)).state.stopped
        ≡ Sets.contains "T1" anchor.state.stopped)
    × AreAlike "T1" (anchor_from_json 1000 (anchor_to_json anchor)).logons anchor.logons
    × ((anchor_from_json 1000 (anchor_to_json anchor)).as_of ≡ anchor.as_of)
    × ((anchor_from_json 1000 (anchor_to_json anchor)).scn ≡ anchor.scn)
    × ((anchor_from_json 1000 (anchor_to_json anchor)).last_ts ≡ anchor.last_ts)
anchor_from_json-anchor_to_json_example =
    anchor_from_json-anchor_to_json anchor box_1 "T1" rows-Distinct machines-Distinct
      logons-AreDistinct
