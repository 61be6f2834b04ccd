-- ===== src/Fleet/Status.antt =====
-- frontend/src/deviceClass.ts and frontend/src/deviceStatus.ts: the state of one device.
pub mod Laws
use rmm_rxf_sys_de.Base.{
  ℕ, max, Bool, true, false, not, ◌&&◌, String, Option, none, some, List, [], ◌∷◌, leb,
  if◌then◌else◌, or_else, str_eq,
}
use rmm_rxf_sys_de.Fleet.Types.{Device, Disk, Alert, percent}

pub data DeviceClass : Type 0 where
  agent mobile : DeviceClass

unfoldable pub device_class : Device → DeviceClass
device_class d = if str_eq d.device_class "mobile" then mobile else agent

unfoldable pub is_agent : Device → Bool
unfolding device_class
is_agent d = elim (device_class d) [ agent ↦ true | mobile ↦ false ]

pub data DeviceState : Type 0 where
  ok warn crit off : DeviceState

-- `Math.max(0, ...disks.map((x) => x.used_pct))`
abbrev pub fullest : List Disk → ℕ
fullest [] = 0
fullest (x ∷ xs) = max x.used_pct (fullest xs)

abbrev pub max_disk : Device → ℕ
max_disk d = fullest (or_else d.heartbeat.disks [])

unfoldable pub device_state : Device → DeviceState
device_state d =
    if not d.online
    then off
    else (if leb (percent 90) (max_disk d)
        then crit
        else (if leb (percent 80) (max_disk d) then warn else ok))

unfoldable pub has_problem : Device → Bool
unfolding device_state
has_problem d = elim (device_state d) [ warn ↦ true | crit ↦ true | _ ↦ false ]

pub data LoadKind : Type 0 where
  cpu ram disk : LoadKind

pub record Threshold : Type 0 where
  pub warn : ℕ
  pub crit : ℕ

abbrev pub load_thresholds : LoadKind → Threshold
load_thresholds cpu = record { warn = percent 70; crit = percent 90 }
load_thresholds ram = record { warn = percent 75; crit = percent 90 }
load_thresholds disk = record { warn = percent 80; crit = percent 90 }

pub data Level : Type 0 where
  ok warn crit : Level

unfoldable pub load_level : ℕ → LoadKind → Level
load_level pct kind =
    if leb (load_thresholds kind).crit pct
    then Level.crit
    else (if leb (load_thresholds kind).warn pct then Level.warn else Level.ok)

pub data MobileState : Type 0 where
  reachable unreachable removed manual : MobileState

-- `checked_out_at` is read for its truth: null and 0 are both false.
abbrev pub is_time : Option ℕ → Bool
is_time none = false
is_time (some t) = leb 1 t

unfoldable pub mobile_state : Device → MobileState
mobile_state d = elim (d.mdm) [
  | none ↦ manual
  | some m ↦
      if is_time m.checked_out_at then removed else (if m.reachable then reachable else unreachable)
]

pub data DeviceStatusKind : Type 0 where
  ok warn danger off noagent : DeviceStatusKind

abbrev kind_of_mobile : MobileState → DeviceStatusKind
kind_of_mobile reachable = DeviceStatusKind.ok
kind_of_mobile unreachable = DeviceStatusKind.off
kind_of_mobile removed = DeviceStatusKind.warn
kind_of_mobile manual = noagent

abbrev kind_of_state : DeviceState → DeviceStatusKind
kind_of_state DeviceState.off = DeviceStatusKind.off
kind_of_state DeviceState.crit = danger
kind_of_state DeviceState.warn = DeviceStatusKind.warn
kind_of_state DeviceState.ok = DeviceStatusKind.ok

unfoldable pub device_status_kind : Device → DeviceStatusKind
unfolding device_state mobile_state
device_status_kind d =
    if str_eq d.device_class "mobile"
    then kind_of_mobile (mobile_state d)
    else kind_of_state (device_state d)

abbrev pub status_word : DeviceStatusKind → String
status_word DeviceStatusKind.ok = "OK"
status_word DeviceStatusKind.warn = "Warnung"
status_word danger = "Kritisch"
status_word DeviceStatusKind.off = "Offline"
status_word noagent = "Ohne Agent"

unfoldable pub device_status_label : Device → String
unfolding device_status_kind mobile_state
device_status_label d =
    let is_removed : Bool = elim (mobile_state d) [ removed ↦ true | _ ↦ false ] in
    if str_eq d.device_class "mobile" && is_removed
    then "Profil entfernt"
    else status_word (device_status_kind d)

pub data AlertKind : Type 0 where
  off danger warn : AlertKind

abbrev is_danger : Option Device → Bool
is_danger none = false
is_danger (some d) = elim (device_status_kind d) [ danger ↦ true | _ ↦ false ]

unfoldable pub alert_status_kind : Alert → Option Device → AlertKind
unfolding device_status_kind
alert_status_kind a device =
    if str_eq a.rule "offline"
    then AlertKind.off
    else (if str_eq a.rule "disk" && is_danger device then AlertKind.danger else AlertKind.warn)
