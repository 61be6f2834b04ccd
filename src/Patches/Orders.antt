-- ===== src/Patches/Orders.antt =====
-- The devices of one click on the page of updates: frontend/src/pages/patches/PatchesPage.tsx, lines
-- 402 to 479.
use rmm_rxf_sys_de.Base.{ℕ, List, [], ◌∷◌, sum_of, ltb, or_else}
use rmm_rxf_sys_de.Fleet.Types.{Device, PatchSummary}
use rmm_rxf_sys_de.Alerts.Report.{Thrown}
use rmm_rxf_sys_de.Bulk.Run.{Bulk}
use rmm_rxf_sys_de.Bulk.Selection.{Rule, Partition, partition, reachable}
use rmm_rxf_sys_de.Patches.Filter.{pending_of, security_of}
use rmm_rxf_sys_de.Track.Round.{Entry}

-- `scan`, `installSecurity` and `queueUpdates`
pub data Work : Type 0 where
  scan install queue : Work

abbrev connected_only : Rule
connected_only = record { test = reachable; reason = "ohne Verbindung" }

unfoldable pub rules : Work → PatchSummary → List Rule
rules scan ps = connected_only ∷ []
rules install ps =
    record { test = λ d. ltb 0 (security_of d ps); reason = "ohne offene Sicherheitsupdates" }
    ∷ connected_only
    ∷ []
rules queue ps =
    record { test = λ d. ltb 0 (or_else (pending_of d ps) 0); reason = "ohne offene Updates" } ∷ []

-- The devices of one click, with the figures of that moment.
pub record Order : Type 0 where
  pub work : Work
  pub list : List Device
  pub summary : PatchSummary
  pub plan : Partition

unfoldable pub order : Work → List Device → PatchSummary → Order
order w list ps = record { work = w; list = list; summary = ps; plan = partition list (rules w ps) }

-- `runBulk`, and the jobs that its calls have started.
pub record Round : Type 0 where
  pub order : Order
  pub bulk : Bulk Device Thrown
  pub started : List Entry

-- How many security updates the dialog speaks of.
unfoldable pub updates : Order → ℕ
updates o = sum_of (λ d. security_of d o.summary) o.plan.targets
