-- ===== src/Dispatch/Examples.antt =====
-- The theorems on signals, holds and waking at concrete signals, orders and polls.
use tt_aiops_platform.Prelude.{
  ℕ, ◌*◌, ◌≡◌, ◌↔◌, ◌≤◌, refl, String, Bool, true, false, not, some, none, List, [], ◌∷◌, ◌++◌, ok,
  err, arith, inl, string_eq,
}
use mathlib.Core.List.{Perm}
use tt_aiops_platform.Prelude.Maps
use tt_aiops_platform.Prelude.Sorting
use tt_aiops_platform.Prelude.Int.{pos}
use tt_aiops_platform.Dispatch.Signals.{Instant, TosSig, HoldKind, is_free_tos, truck_busy_after}
use tt_aiops_platform.Dispatch.Signals.Idle.{IsIdleSince, is_free_tos_iff}
use tt_aiops_platform.Dispatch.Signals.Busy.{IsBefore, busy-eq-not_free}
use tt_aiops_platform.Dispatch.Holds.{
  Held, Hold, SentRow, OpenSent, Closed, Candidate, WorkItem, apply_written, release_held,
  restore_holds, new_rows, is_expired,
}
use tt_aiops_platform.Dispatch.Holds.Orders.{msg_ids, closed_ids, HasEvidence}
use tt_aiops_platform.Dispatch.Holds.Release.{release_held-perm, release_held-lookup}
use tt_aiops_platform.Dispatch.Holds.Written.{
  apply_written-perm, apply_written-lookup, order_of, TrucksDiffer, new_rows-supersede_nothing,
}
use tt_aiops_platform.Dispatch.Holds.Restore.{open_ids, restore_holds-perm}
use tt_aiops_platform.Dispatch.Holds.Latest.{
  ComesFrom, restore_holds-ComesFrom, restore_holds-latest,
}
use tt_aiops_platform.Dispatch.Holds.Restart.{open_rows, NoneExpired, restart-lookup}
use tt_aiops_platform.Dispatch.Wake.{
  combine_wake, should_wake, landed_of, WakeSrc, WakeStep, FreeSeen, Poll, Woken, judge, woken_of,
  wait_for_workpool_landing, ns_of_ms, wake_poll_ms,
}
use tt_aiops_platform.Dispatch.Wake.Steps.{woken-waits}
use tt_aiops_platform.Dispatch.Wake.Waiting.{EndedBy, wait-EndedBy, wait-total}

-- Free at 5 s, dispatched again at 9 s.
abbrev sent_out : TosSig
sent_out = record {
  free = some 5000000;
  dis = some 9000000;
  jobtype = none;
  free_jt = none;
  topos = none;
  listed_at = none;
  picked = none;
  avail_since = none;
}

is_free_tos_iff_example : (is_free_tos sent_out ≡ true) ↔ ((f : Instant) × IsIdleSince sent_out f)
is_free_tos_iff_example = is_free_tos_iff sent_out

sent_out-not_free : is_free_tos sent_out ≡ false
unfolding is_free_tos
sent_out-not_free = refl

sent_out-IsBefore : IsBefore sent_out 9500
sent_out-IsBefore = record {
  picked_before = λ p e. absurd (cc);
  dis_before = λ d e. ground arith;
  listed_before = λ a e. absurd (cc);
}

busy-eq-not_free_example :
    truck_busy_after (some sent_out) HoldKind.assign 9500 ≡ not (is_free_tos sent_out)
busy-eq-not_free_example = busy-eq-not_free sent_out 5000000 9500 refl sent_out-IsBefore

-- Two trucks with an order each.
abbrev order_1 : Hold
order_1 = record { contno = "BOX1"; sent_ms = 1000; msg_id = "m1"; kind = HoldKind.assign }

abbrev order_2 : Hold
order_2 = record { contno = "BOX2"; sent_ms = 2000; msg_id = "m2"; kind = HoldKind.assign }

abbrev held : Held
held = ("T1", order_1) ∷ ("T2", order_2) ∷ []

held-Distinct : Maps.Distinct held
unfolding Maps.has_key
held-Distinct = (refl, (refl, tt))

abbrev listed : String → String → Bool
listed yt c = false

abbrev busy : String → Hold → Bool
busy yt h = false

release_held-perm_example :
    Perm
      (msg_ids (release_held (some 3500) listed busy held).0
        ++ closed_ids (release_held (some 3500) listed busy held).1)
      (msg_ids held)
release_held-perm_example = release_held-perm (some 3500) listed busy held

held-T1 : Maps.lookup "T1" held ≡ some order_1
unfolding Maps.lookup
held-T1 = refl

release_held-lookup_example :
    ((Maps.lookup "T1" (release_held (some 3500) listed busy held).0 ≡ none)
      ↔ HasEvidence (some 3500) busy "T1" order_1)
    × ((Maps.lookup "T1" (release_held (some 3500) listed busy held).0 ≡ some order_1)
        ↔ (¬ HasEvidence (some 3500) busy "T1" order_1))
release_held-lookup_example =
    release_held-lookup (some 3500) listed busy held "T1" order_1 held-Distinct held-T1

-- A new order for the first truck.
abbrev rows : List SentRow
rows =
    record {
      kind = HoldKind.assign;
      ytno = "T1";
      contno = "BOX3";
      jobtype = none;
      qc = none;
      peer = none;
    }
    ∷ []

apply_written-perm_example :
    (out : List Closed) × ((apply_written {E = String} held rows (ok ("m3" ∷ [], 5000))).1 ≡ ok out)
    × Perm
        (closed_ids out ++ msg_ids (apply_written {E = String} held rows (ok ("m3" ∷ [], 5000))).0)
        (("m3" ∷ []) ++ msg_ids held)
apply_written-perm_example = apply_written-perm String held rows ("m3" ∷ []) 5000 refl

apply_written-lookup_example :
    (Maps.lookup "T1" (apply_written {E = String} held rows (ok ("m3" ∷ [], 5000))).0
      ≡ elim (order_of "T1" rows ("m3" ∷ []) 5000) [
        | some h ↦ some h
        | none ↦ Maps.lookup "T1" held
      ])
    × (Maps.lookup "T1" (apply_written {E = String} held rows (err "lost")).0
        ≡ Maps.lookup "T1" held)
apply_written-lookup_example = apply_written-lookup String held rows ("m3" ∷ []) 5000 "lost" "T1"

abbrev pairs : List (Candidate × WorkItem)
pairs =
    (
      record { ytno = "T3"; free_now = true },
      record { contno = some "BOX3"; jobtype = "LD"; qc = "Q1" },
    )
    ∷ (
      record { ytno = "T1"; free_now = true },
      record { contno = some "BOX4"; jobtype = "LD"; qc = "Q1" },
    )
    ∷ []

pairs-TrucksDiffer : TrucksDiffer pairs
pairs-TrucksDiffer = (refl, (refl, tt))

new_rows-supersede_nothing_example :
    (apply_written {E = String} held (new_rows held pairs) (ok ("m3" ∷ [], 5000))).1 ≡ ok []
new_rows-supersede_nothing_example =
    new_rows-supersede_nothing String held pairs ("m3" ∷ []) 5000 pairs-TrucksDiffer

-- Two open orders of one truck: the later one is held.
abbrev open_orders : List OpenSent
open_orders =
    record { msg_id = "m1"; kind = HoldKind.assign; ytno = "T1"; contno = "BOX1"; sent_ms = 1000 }
    ∷ record { msg_id = "m2"; kind = HoldKind.swap; ytno = "T1"; contno = "BOX2"; sent_ms = 2000 }
    ∷ []

abbrev latest : Hold
latest = record { contno = "BOX2"; sent_ms = 2000; msg_id = "m2"; kind = HoldKind.swap }

abbrev after : Held
after = ("T1", latest) ∷ []

abbrev close : List Closed
close = ("m1", "superseded") ∷ []

restored : restore_holds {E = String} (ok open_orders) 9000 ≡ some (after, close)
unfolding restore_holds Sorting.sort_by Sorting.insert_by
restored = refl

restore_holds-perm_example : Perm (msg_ids after ++ closed_ids close) (open_ids open_orders)
restore_holds-perm_example = restore_holds-perm String open_orders 9000 restored

latest-T1 : Maps.lookup "T1" after ≡ some latest
unfolding Maps.lookup
latest-T1 = refl

restore_holds-ComesFrom_example : ComesFrom 9000 open_orders "T1" latest
restore_holds-ComesFrom_example =
    restore_holds-ComesFrom String open_orders 9000 after close "T1" latest restored latest-T1

abbrev first_open : OpenSent
first_open = record {
  msg_id = "m1";
  kind = HoldKind.assign;
  ytno = "T1";
  contno = "BOX1";
  sent_ms = 1000;
}

first_open-fresh : is_expired 9000 first_open ≡ false
unfolding is_expired
first_open-fresh = refl

restore_holds-latest_example :
    (h : Hold) × (Maps.lookup "T1" after ≡ some h)
    × (1000 ≤ h.sent_ms)
    × ComesFrom 9000 open_orders "T1" h
restore_holds-latest_example =
    restore_holds-latest String open_orders 9000 after close first_open restored (inl refl)
      first_open-fresh

held-NoneExpired : NoneExpired 9000 held
unfolding is_expired
held-NoneExpired = (refl, (refl, tt))

abbrev held_again : Held
held_again = ("T2", order_2) ∷ ("T1", order_1) ∷ []

reread : restore_holds {E = String} (ok (open_rows held)) 9000 ≡ some (held_again, [])
unfolding restore_holds Sorting.sort_by Sorting.insert_by
reread = refl

restart-lookup_example : Maps.lookup "T1" held_again ≡ Maps.lookup "T1" held
restart-lookup_example =
    restart-lookup String held held_again [] 9000 "T1" held-Distinct held-NoneExpired reread

-- The query keeps failing.
abbrev failing : ℕ → Poll
failing j = record { row = err "no answer"; elapsed = ns_of_ms (j * wake_poll_ms) }

abbrev nothing_seen : FreeSeen
nothing_seen = record { load = none; discharge = none }

wait-total_example :
    (w : Woken) × (wait_for_workpool_landing 76 failing 0 none nothing_seen true ≡ some w)
wait-total_example = wait-total failing true none nothing_seen (λ j. omega arith)

-- The first answer has the first landing.
abbrev landing : Poll
landing = record {
  row = ok (record {
    age = some (pos 10);
    table_age = none;
    landed = some 700;
    load = none;
    discharge = none;
  });
  elapsed = 2000000000;
}

abbrev woken : Woken
woken = woken_of WakeSrc.startup none nothing_seen landing

landing-wakes : judge true none nothing_seen landing ≡ WakeStep.wake WakeSrc.startup
unfolding judge combine_wake should_wake landed_of
landing-wakes = refl

first_wait : wait_for_workpool_landing 76 (λ j. landing) 0 none nothing_seen true ≡ some woken
unfolding wait_for_workpool_landing judge combine_wake should_wake landed_of
first_wait = refl

wait-EndedBy_example : EndedBy (λ j. landing) true 0 none nothing_seen woken
wait-EndedBy_example = wait-EndedBy (λ j. landing) true 76 0 none nothing_seen woken first_wait

woken-waits_example : judge true woken.seen woken.free_seen landing ≡ WakeStep.keep_waiting
woken-waits_example =
    woken-waits true WakeSrc.startup none nothing_seen landing landing refl (omega arith)
