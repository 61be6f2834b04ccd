-- ===== src/Patches/Actions.antt =====
-- What the page of updates has devices do: frontend/src/pages/patches/PatchesPage.tsx, lines 378 to
-- 515. `Desk` is the part of the page's state that this reads and writes; each handler is a function
-- on it.
pub mod Steps
pub mod Rounds
pub mod Followed
mod Tests
use rmm_rxf_sys_de.Base.{
  ℕ, ◌+◌, Bool, true, false, ◌||◌, String, Option, none, some, List, [], ◌∷◌, ◌++◌, map, count, ltb,
  ◌==◌, if◌then◌else◌,
}
use rmm_rxf_sys_de.Fleet.Types.{Device, PatchSummary}
use rmm_rxf_sys_de.Fleet.Jobs.{Job}
use rmm_rxf_sys_de.Alerts.Report.{Thrown}
use rmm_rxf_sys_de.Bulk.Run.{Settled, resolved, start, settle}
use rmm_rxf_sys_de.Bulk.Selection.{reachable}
use rmm_rxf_sys_de.Patches.Filter.{security_of}
use rmm_rxf_sys_de.Track.Round.{Entry}
use rmm_rxf_sys_de.Patches.Orders.{Work, scan, install, Order, order, Round}
use rmm_rxf_sys_de.Patches.Notices.{Notice, refused, report}

pub record Desk : Type 0 where
  pub busy : Bool
  -- what the open dialog asks for
  pub asking : Option Order
  pub rounds : List Round
  pub notices : List Notice
  -- the arguments of `trackJobs`
  pub followed : List (List Entry)
  -- the ids whose cached queries were marked stale
  pub stale : List ℕ
  -- the calls of `onRefresh`
  pub refreshes : ℕ
  -- the timeouts after a scan
  pub late : List (List Device)

abbrev pub opened : Desk
opened = record {
  busy = false;
  asking = none;
  rounds = [];
  notices = [];
  followed = [];
  stale = [];
  refreshes = 0;
  late = [];
}

unfoldable pub refresh_fleet : List Device → Desk → Desk
refresh_fleet touched s = record s {
  stale = s.stale ++ map (λ (d : Device). d.id) touched;
  refreshes = s.refreshes + 1;
}

-- `concurrency` of `runBulk`
abbrev pub workers : ℕ
workers = 4

unfoldable pub begin : Order → Desk → Desk
begin o s = record s {
  busy = true;
  asking = none;
  rounds = s.rounds ++ record { order = o; bulk = start workers o.plan.targets; started = [] } ∷ [];
}

-- A scan starts at once, the others ask first.
abbrev pub approached : Work → Order → Desk → Desk
approached scan o s = begin o s
approached _ o s = record s { asking = some o }

abbrev pub offered : List Device → Order → Desk → Desk
offered [] o s = record s { notices = s.notices ++ refused o ∷ [] }
offered (d ∷ targets) o s = approached o.work o s

-- The button of an installation, without anything to install.
unfoldable pub is_disabled : Work → List Device → PatchSummary → Bool
is_disabled install list ps = count (λ d. ltb 0 (security_of d ps)) list == 0
is_disabled _ list ps = false

-- A click on one of the buttons.
unfoldable pub press : Work → List Device → PatchSummary → Desk → Desk
press w list ps s =
    let o = order w list ps in
    if s.busy || is_disabled w list ps then s else offered o.plan.targets o s

-- The button of a row.
unfoldable pub press_row : Device → PatchSummary → Desk → Desk
unfolding press
press_row d ps s = if reachable d then press scan (d ∷ []) ps s else s

-- The answer to the dialog.
unfoldable pub on_answer : Bool → Order → Desk → Desk
unfolding begin
on_answer false o s = record s { asking = none }
on_answer true o s = begin o s

abbrev pub note_job : Work → Device → Job → Settled Thrown → List Entry → List Entry
note_job install d job resolved started =
    started ++ record { job = job; device_name = d.hostname } ∷ []
note_job _ d job _ started = started

-- A call of the round ends; only the answer to an installation has a job, and only there it is read.
unfoldable pub on_settled :
    List Round
    → Round
    → List Round
    → List Device
    → Device
    → List Device
    → Job
    → Settled Thrown
    → Desk
    → Desk
on_settled xs r ys before d after job res s = record s {
  rounds =
      xs
      ++ record r {
        bulk = settle before d after res r.bulk;
        started = note_job r.order.work d job res r.started;
      }
        ∷ ys;
}

-- `fmt` stands for the format of numbers.
module _ (fmt : ℕ → String) where
  abbrev late_of : Work → List Device → List (List Device)
  late_of scan targets = targets ∷ []
  late_of _ targets = []

  abbrev pub followed_of : Work → List Entry → List (List Entry)
  followed_of install started = started ∷ []
  followed_of _ started = []

  -- The last call has ended.
  unfoldable pub on_over : List Round → Round → List Round → Desk → Desk
  unfolding refresh_fleet
  on_over xs r ys s = record (refresh_fleet r.order.plan.targets s) {
    busy = false;
    rounds = xs ++ ys;
    notices = s.notices ++ report fmt r;
    followed = s.followed ++ followed_of r.order.work r.started;
    late = s.late ++ late_of r.order.work r.order.plan.targets;
  }

-- Five seconds after a scan.
unfoldable pub on_late : List (List Device) → List Device → List (List Device) → Desk → Desk
unfolding refresh_fleet
on_late xs touched ys s = record (refresh_fleet touched s) { late = xs ++ ys }
