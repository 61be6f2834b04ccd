-- ===== src/Fleet/Types.antt =====
-- frontend/src/types.ts: devices, alerts and patch counts, as far as the modelled code reads them.
-- Ids and times are whole numbers that are never negative. A percentage is a float in the source
-- and only ever compared; here it is a whole number of millionths of a percent.
use rmm_rxf_sys_de.Base.Int.{ℤ}
use rmm_rxf_sys_de.Base.{
  ℕ, ◌*◌, String, Bool, Option, none, some, List, [], ◌∷◌, ◌==◌, if◌then◌else◌,
}

-- `n` percent.
abbrev pub percent : ℕ → ℕ
percent n = n * 1000000

pub record Disk : Type 0 where
  pub mount : String
  pub used_pct : ℕ
  pub used_b : Option ℕ
  pub total_b : ℕ

-- Optional fields are `none` where the agent does not report them; a temperature is a whole number
-- of millionths of a degree.
pub record Heartbeat : Type 0 where
  pub ts : Option ℕ
  pub agent_version : Option String
  pub cpu_pct : Option ℕ
  pub mem_pct : Option ℕ
  pub mem_used_b : Option ℕ
  pub mem_total_b : Option ℕ
  pub disks : Option (List Disk)
  pub net_rx_bps : Option ℕ
  pub net_tx_bps : Option ℕ
  pub net_rx_total_b : Option ℕ
  pub net_tx_total_b : Option ℕ
  pub cpu_temp_c : Option ℤ
  pub battery_pct : Option ℕ
  pub battery_state : Option String
  pub logged_in_user : Option String
  pub reboot_required : Option Bool

pub data IosStatus : Type 0 where
  current major_behind outdated unknown : IosStatus

pub record MdmSummary : Type 0 where
  pub enrolled_at : ℕ
  pub last_seen_at : ℕ
  pub checked_out_at : Option ℕ
  pub reachable : Bool
  pub passcode_present : Option Bool
  pub identity_expires_at : Option ℕ
  pub os_version : Option String
  pub os_status : IosStatus
  pub os_latest : Option String

-- `device_class` is kept as the text that arrives: the code reads any unknown text as an agent. So
-- is `ownership`. `mdm` is `none` where it is null or missing.
pub record Device : Type 0 where
  pub id : ℕ
  pub hostname : String
  pub owner_label : String
  pub os : String
  pub os_version : String
  pub arch : String
  pub agent_version : String
  pub tags : List String
  pub heartbeat : Heartbeat
  pub rustdesk_id : String
  pub person_id : Option ℕ
  pub maintenance_until : Option ℕ
  pub created_at : ℕ
  pub last_seen_at : Option ℕ
  pub online : Bool
  pub connected : Bool
  pub agent_update_available : Option String
  pub last_patch_scan_at : ℕ
  pub device_class : String
  pub ownership : String
  pub model : String
  pub serial : String
  pub imei : String
  pub notes : String
  pub checked_at : Option ℕ
  pub open_actions : Option ℕ
  pub mdm : Option MdmSummary

pub record Alert : Type 0 where
  pub id : ℕ
  pub device_id : ℕ
  pub rule : String
  pub message : String
  pub fired_at : ℕ
  pub resolved_at : Option ℕ
  pub notified : Bool
  pub acked_at : Option ℕ
  pub acked_by : String

pub record PatchCounts : Type 0 where
  pub pending : ℕ
  pub security : ℕ

-- A JSON object keyed by the decimal text of a device's id; here the key is the id itself.
abbrev pub PatchSummary : Type 0
PatchSummary = List (ℕ × PatchCounts)

-- `ps[String(id)]`
abbrev pub lookup : ℕ → PatchSummary → Option PatchCounts
lookup k [] = none
lookup k ((j, c) ∷ ps) = if j == k then some c else lookup k ps
