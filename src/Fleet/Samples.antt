-- ===== src/Fleet/Samples.antt =====
-- A small fleet for the tests of the other modules.
use rmm_rxf_sys_de.Base.{ℕ, suc, true, false, String, none, some, List, [], ◌∷◌, compare}
use rmm_rxf_sys_de.Base.Compare.{on-IsOrder, on, compare-IsOrder}
use rmm_rxf_sys_de.Base.Text.{Collator}
use rmm_rxf_sys_de.Fleet.Types.{Device, Heartbeat, Alert, PatchSummary, percent}

-- A collation by length.
abbrev size : String → ℕ
size String.[] = 0
size (String.◌∷◌ c s) = suc (size s)

abbrev pub by_size : Collator
by_size = record { compare = on size compare; order = on-IsOrder size compare-IsOrder }

abbrev silent : Heartbeat
silent = record {
  ts = none;
  agent_version = none;
  cpu_pct = none;
  mem_pct = none;
  mem_used_b = none;
  mem_total_b = none;
  disks = none;
  net_rx_bps = none;
  net_tx_bps = none;
  net_rx_total_b = none;
  net_tx_total_b = none;
  cpu_temp_c = none;
  battery_pct = none;
  battery_state = none;
  logged_in_user = none;
  reboot_required = none;
}

abbrev pub device : ℕ → String → String → Device
device id hostname os = record {
  id = id;
  hostname = hostname;
  owner_label = "";
  os = os;
  os_version = "";
  arch = "amd64";
  agent_version = "1.4.0";
  tags = [];
  heartbeat = silent;
  rustdesk_id = "";
  person_id = none;
  maintenance_until = none;
  created_at = 0;
  last_seen_at = some 1000;
  online = true;
  connected = true;
  agent_update_available = none;
  last_patch_scan_at = 1000;
  device_class = "agent";
  ownership = "";
  model = "";
  serial = "";
  imei = "";
  notes = "";
  checked_at = none;
  open_actions = none;
  mdm = none;
}

abbrev pub full_disk : Device
full_disk = record (device 1 "pc-anna" "windows") {
  heartbeat = record silent {
    disks =
        some (record { mount = "C:"; used_pct = percent 95; used_b = none; total_b = 100 } ∷ []);
  };
}

-- Never scanned, and not connected.
abbrev pub server : Device
server = record (device 2 "srv" "windows") {
  tags = "server" ∷ [];
  last_patch_scan_at = 0;
  connected = false;
}

abbrev pub laptop : Device
laptop = device 3 "mac-berta" "darwin"

abbrev pub fleet : List Device
fleet = full_disk ∷ server ∷ laptop ∷ []

abbrev pub patch_summary : PatchSummary
patch_summary =
    (1, record { pending = 4; security = 2 }) ∷ (3, record { pending = 1; security = 0 }) ∷ []

abbrev pub alert : ℕ → ℕ → String → ℕ → Alert
alert id device_id rule fired_at = record {
  id = id;
  device_id = device_id;
  rule = rule;
  message = "";
  fired_at = fired_at;
  resolved_at = none;
  notified = true;
  acked_at = none;
  acked_by = "";
}
