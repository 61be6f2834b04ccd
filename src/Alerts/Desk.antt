-- ===== src/Alerts/Desk.antt =====
-- Acknowledging on the alert page: frontend/src/pages/alerts/AlertsPage.tsx, lines 276 to 407. `Desk`
-- is the part of the page's state that this reads and writes; each handler is a function on it. A
-- round of requests is over when its list has been fetched again.
pub mod Once
use rmm_rxf_sys_de.Base.{
  ℕ, ◌+◌, Bool, true, false, Option, none, some, List, [], ◌∷◌, ◌++◌, map, filter, any, length, ltb,
  ◌==◌, if◌then◌else◌,
}
use rmm_rxf_sys_de.Base.IdSet.{has, put_all}
use rmm_rxf_sys_de.Bulk.Run.{Failure}
use rmm_rxf_sys_de.Fleet.Types.{Alert}
use rmm_rxf_sys_de.Alerts.Ack.{AckRound, still_to_ack}
use rmm_rxf_sys_de.Alerts.Report.{Thrown, gone, ack_failure, AckSkipped}

abbrev pub ids_of : List Alert → List ℕ
ids_of alerts = map (λ (a : Alert). a.id) alerts

-- `runBulk` on the alerts of one click; the serial number tells rounds apart.
pub record Round : Type 0 where
  pub serial : ℕ
  pub list : List Alert
  pub index : ℕ
  pub skipped : Option AckSkipped
  pub is_bulk : Bool

-- Where the focus goes when a row leaves.
pub record Handoff : Type 0 where
  pub serial : ℕ
  pub ids : List ℕ
  pub index : ℕ

pub record Desk : Type 0 where
  pub alerts : List Alert
  pub busy : List ℕ
  pub bulk_running : Bool
  -- the alerts that the open confirmation names
  pub asking : Option (List Alert)
  pub rounds : List Round
  pub handoff : Option Handoff
  pub serials : ℕ

abbrev pub opened : List Alert → Desk
opened alerts = record {
  alerts = alerts;
  busy = [];
  bulk_running = false;
  asking = none;
  rounds = [];
  handoff = none;
  serials = 0;
}

-- `acknowledge`, up to the requests.
unfoldable pub acknowledge : List Alert → ℕ → Option AckSkipped → Bool → Desk → Desk
acknowledge list index skipped is_bulk s = record s {
  handoff = some (record { serial = s.serials; ids = ids_of list; index = index });
  busy = put_all true (ids_of list) s.busy;
  rounds =
      s.rounds
      ++ record {
        serial = s.serials;
        list = list;
        index = index;
        skipped = skipped;
        is_bulk = is_bulk;
      }
        ∷ [];
  serials = s.serials + 1;
}

-- The button of a row.
unfoldable pub on_ack : Alert → ℕ → Desk → Desk
unfolding acknowledge
on_ack a index s = if has a.id s.busy then s else acknowledge (a ∷ []) index none false s

abbrev ask : List Alert → Desk → Desk
ask [] s = s
ask (a ∷ targets) s = record s { asking = some (a ∷ targets) }

-- "Alle quittieren"; `shown` is the list on the page.
unfoldable pub on_ack_all : List Alert → Desk → Desk
on_ack_all shown s = if s.bulk_running then s else ask (still_to_ack shown s.alerts s.busy).send s

abbrev sent : AckRound → Desk → Desk
sent r s =
    acknowledge r.send 0 (some (record { acked = r.acked; resolved = r.resolved })) true
      (record s { bulk_running = true; asking = none })

-- The answer to the confirmation.
unfoldable pub on_answer : Bool → List Alert → Desk → Desk
unfolding acknowledge
on_answer false targets s = record s { asking = none }
on_answer true targets s = sent (still_to_ack targets s.alerts s.busy) s

unfoldable pub on_refresh : List Alert → Desk → Desk
on_refresh alerts s = record s { alerts = alerts }

abbrev is_gone : Failure Alert Thrown → Bool
is_gone f = elim (ack_failure f.error) [ gone ↦ true | _ ↦ false ]

-- The rows that leave the open list.
abbrev leaving : List Alert → List (Failure Alert Thrown) → List ℕ
leaving ok failed =
    ids_of ok ++ map (λ (f : Failure Alert Thrown). f.item.id) (filter is_gone failed)

abbrev handed : Round → List ℕ → Option Handoff → Option Handoff
handed r ids none = none
handed r ids (some h) =
    if h.serial == r.serial
    then (if ltb 0 (length ids)
        then some (record { serial = r.serial; ids = ids; index = r.index })
        else none)
    else some h

-- A round ends: the requests have, and the list has been fetched again. `xs` and `ys` are the other
-- rounds.
unfoldable pub on_done :
    List Round
    → Round
    → List Round
    → (ok : List Alert) (failed : List (Failure Alert Thrown)) → Desk
    → Desk
on_done xs r ys ok failed s = record s {
  handoff = handed r (leaving ok failed) s.handoff;
  busy = put_all false (ids_of r.list) s.busy;
  bulk_running = if r.is_bulk then false else s.bulk_running;
  rounds = xs ++ ys;
}

-- The effect after a render: once the leaving rows have left, the focus is not handed on any more.
unfoldable pub on_rendered : List Alert → Desk → Desk
on_rendered rows s = record s {
  handoff = elim s.handoff [
    | none ↦ none
    | some h ↦ if any (λ (a : Alert). has a.id h.ids) rows then some h else none
  ];
}
