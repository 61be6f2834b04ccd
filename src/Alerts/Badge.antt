-- ===== src/Alerts/Badge.antt =====
-- The badge of an alert and how long it was open: frontend/src/pages/alerts/alertList.ts, lines 105
-- to 124.
use Prim.Native.String
use rmm_rxf_sys_de.Base.{
  ℕ, ◌-◌, ◌*◌, max, Bool, true, false, String, Option, none, some, ltb, is_some, if◌then◌else◌,
}
use rmm_rxf_sys_de.Base.Text.{decimal, round_div}
use rmm_rxf_sys_de.Fleet.Types.{Alert, Device}
use rmm_rxf_sys_de.Fleet.Status.{AlertKind, DeviceStatusKind, alert_status_kind}

pub record Badge : Type 0 where
  pub kind : DeviceStatusKind
  pub label : String
  pub plain : Bool

abbrev kind_label : AlertKind → String
kind_label AlertKind.off = "Offline"
kind_label AlertKind.danger = "Kritisch"
kind_label AlertKind.warn = "Warnung"

-- The kinds of an alert are kinds of a badge.
abbrev badge_kind : AlertKind → DeviceStatusKind
badge_kind AlertKind.off = DeviceStatusKind.off
badge_kind AlertKind.danger = DeviceStatusKind.danger
badge_kind AlertKind.warn = DeviceStatusKind.warn

unfoldable pub alert_badge : Alert → Option Device → Badge
alert_badge a device =
    if is_some a.resolved_at
    then record { kind = DeviceStatusKind.ok; label = "Behoben"; plain = true }
    else (let kind = alert_status_kind a device in
        record { kind = badge_kind kind; label = kind_label kind; plain = false })

abbrev span : ℕ → String
span s =
    if ltb s 5400
    then String.◌++◌ (decimal (max 1 (round_div s 60))) " Min."
    else (if ltb s (36 * 3600)
        then String.◌++◌ (decimal (round_div s 3600)) " Std."
        else String.◌++◌ (decimal (round_div s 86400)) " Tage")

-- The subtraction stops at 0, as `Math.max(0, …)` does.
unfoldable pub open_for : Alert → String
open_for a = elim (a.resolved_at) [ none ↦ "" | some resolved ↦ span (resolved - a.fired_at) ]
