-- ===== src/Alerts/Tests.antt =====
-- The properties of the alert centre at a few alerts: frontend/src/pages/alerts/alertList.ts.
use rmm_rxf_sys_de.Base.{◌≡◌, some, List, [], ◌∷◌}
use rmm_rxf_sys_de.Base.{◌≤◌, ltb}
use rmm_rxf_sys_de.Base.IdSet.{has}
use rmm_rxf_sys_de.Alerts.Desk.{Desk, opened, on_ack}
use rmm_rxf_sys_de.Alerts.Desk.Once.{out, acks, here, next, acknowledged_once}
use rmm_rxf_sys_de.Fleet.Types.{Alert}
use rmm_rxf_sys_de.Fleet.Samples.{alert, full_disk}
use rmm_rxf_sys_de.Alerts.Order.{AlertContext}
use rmm_rxf_sys_de.Bulk.Run.{Failure}
use rmm_rxf_sys_de.Alerts.Report.{Thrown, api_error}

abbrev gone : Alert
gone = record (alert 3 1 "offline" 100) { resolved_at = some 500 }

abbrev alerts : List Alert
alerts = gone ∷ alert 1 1 "offline" 900 ∷ alert 2 1 "disk" 800 ∷ []

abbrev context : AlertContext
context = record { device_of = λ id. some full_disk; now = 1000 }

abbrev failures : List (Failure Alert Thrown)
failures = record { item = gone; error = api_error 404 } ∷ []

abbrev desk : Desk
desk = opened alerts

-- A click on a button, and then a second click on it.
abbrev clicked_twice : Desk
clicked_twice = on_ack (alert 1 1 "offline" 900) 0 (on_ack (alert 1 1 "offline" 900) 0 desk)

acknowledged_once_example :
    (out 1 clicked_twice.rounds ≤ 1)
    × (has 1 clicked_twice.busy ≡ ltb 0 (out 1 clicked_twice.rounds))
acknowledged_once_example =
    acknowledged_once
      (next (next here (acks desk (alert 1 1 "offline" 900) 0))
        (acks (on_ack (alert 1 1 "offline" 900) 0 desk) (alert 1 1 "offline" 900) 0))
      1
