-- ===== src/Board.antt =====
-- The tiles of the overview: frontend/src/pages/overview/fleetBoard.ts. A percentage of the model
-- is a whole number of millionths, so `Math.round` rounds to the nearest million.
pub mod Laws
mod Tests
use rmm_rxf_sys_de.Base.{
  ℕ, ◌+◌, ◌/◌, min, Bool, true, false, not, ◌&&◌, String, Option, none, some, List, [], ◌∷◌, ◌++◌,
  map, Ordering, compare, ◌==◌, leb, filter, count, or_else, is_some, if◌then◌else◌,
}
use rmm_rxf_sys_de.Base.Compare.{then_by}
use rmm_rxf_sys_de.Base.Sort.{sort}
use rmm_rxf_sys_de.Base.Text.{Collator}
use rmm_rxf_sys_de.Fleet.Types.{Device, Disk, Alert, PatchSummary, lookup, percent}
use rmm_rxf_sys_de.Fleet.Status.{
  DeviceStatusKind, danger, warn, off, ok, noagent, device_status_kind, is_agent, LoadKind, cpu,
  ram, disk, Level, load_level,
}

pub data BoardFilter : Type 0 where
  alle : BoardFilter
  only : DeviceStatusKind → BoardFilter

-- `KIND_ORDER.indexOf(kind)`
abbrev pub kind_rank : DeviceStatusKind → ℕ
kind_rank danger = 0
kind_rank DeviceStatusKind.warn = 1
kind_rank DeviceStatusKind.off = 2
kind_rank DeviceStatusKind.ok = 3
kind_rank noagent = 4

pub record LoadReading : Type 0 where
  pub kind : LoadKind
  pub label : String
  pub pct : ℕ
  pub level : Level
  pub detail : Option String

pub record Tile : Type 0 where
  pub device : Device
  pub kind : DeviceStatusKind
  pub load : List LoadReading
  pub pending : ℕ
  pub security : ℕ
  pub never_scanned : Bool
  pub open_alerts : ℕ
  pub reboot_required : Bool
  pub in_maintenance : Bool

-- `Math.max(0, Math.min(100, Math.round(value)))`, of a value that is never negative
abbrev pub whole : ℕ → ℕ
whole value = min 100 ((value + 500000) / 1000000)

-- A reading, as a list of at most one.
unfoldable pub reading : LoadKind → String → Option ℕ → Option String → List LoadReading
reading kind label none detail = []
reading kind label (some value) detail =
    let pct = whole value in
    record {
      kind = kind;
      label = label;
      pct = pct;
      level = load_level (percent pct) kind;
      detail = detail;
    }
    ∷ []

-- The first disk of the list sorted by use, descending.
abbrev pub fullest_disk : List Disk → Option Disk
fullest_disk disks = elim (sort (λ a b. compare b.used_pct a.used_pct) disks) [
  | [] ↦ none
  | x ∷ xs ↦ some x
]

unfoldable pub load_of : Device → List LoadReading
load_of d =
    if is_agent d && d.online
    then reading cpu "CPU" d.heartbeat.cpu_pct none
      ++ (reading ram "RAM" d.heartbeat.mem_pct none
          ++ elim (fullest_disk (or_else d.heartbeat.disks [])) [
            | none ↦ []
            | some x ↦ reading disk "Platte" (some x.used_pct) (some x.mount)
          ])
    else []

abbrev pub open_on : Device → Alert → Bool
open_on d a = a.device_id == d.id && not (is_some a.resolved_at)

unfoldable pub tile_of : PatchSummary → List Alert → Device → Tile
tile_of ps alerts d =
    let summary = lookup d.id ps in
    record {
      device = d;
      kind = device_status_kind d;
      load = load_of d;
      pending = elim summary [ none ↦ 0 | some s ↦ s.pending ];
      security = elim summary [ none ↦ 0 | some s ↦ s.security ];
      never_scanned = is_agent d && leb d.last_patch_scan_at 0;
      open_alerts = count (open_on d) alerts;
      reboot_required = is_agent d && or_else d.heartbeat.reboot_required false;
      in_maintenance = is_some d.maintenance_until;
    }

-- `localeCompare(…, 'de')` is a collation.
abbrev pub compare_tiles : Collator → Tile → Tile → Ordering
compare_tiles collator a b = then_by (compare (kind_rank a.kind) (kind_rank b.kind)) (
    then_by (compare b.open_alerts a.open_alerts) (
      then_by (compare b.security a.security) (
        then_by (compare b.pending a.pending)
          (collator.compare a.device.hostname b.device.hostname))))

unfoldable pub build_tiles : Collator → List Device → PatchSummary → List Alert → List Tile
build_tiles collator devices ps alerts =
    sort (compare_tiles collator) (map (tile_of ps alerts) devices)

-- `Record<TileKind, number>`
pub record KindCounts : Type 0 where
  pub danger : ℕ
  pub warn : ℕ
  pub off : ℕ
  pub ok : ℕ
  pub noagent : ℕ

abbrev pub count_at : DeviceStatusKind → KindCounts → ℕ
count_at danger c = c.danger
count_at DeviceStatusKind.warn c = c.warn
count_at DeviceStatusKind.off c = c.off
count_at DeviceStatusKind.ok c = c.ok
count_at noagent c = c.noagent

abbrev pub count_one : DeviceStatusKind → KindCounts → KindCounts
count_one danger c = record c { danger = c.danger + 1 }
count_one DeviceStatusKind.warn c = record c { warn = c.warn + 1 }
count_one DeviceStatusKind.off c = record c { off = c.off + 1 }
count_one DeviceStatusKind.ok c = record c { ok = c.ok + 1 }
count_one noagent c = record c { noagent = c.noagent + 1 }

unfoldable pub count_kinds : KindCounts → List Tile → KindCounts
count_kinds c [] = c
count_kinds c (t ∷ tiles) = count_kinds (count_one t.kind c) tiles

unfoldable pub count_by_kind : List Tile → KindCounts
count_by_kind tiles =
    count_kinds (record { danger = 0; warn = 0; off = 0; ok = 0; noagent = 0 }) tiles

abbrev pub same_kind : DeviceStatusKind → DeviceStatusKind → Bool
same_kind k l = kind_rank k == kind_rank l

abbrev pub in_filter : BoardFilter → DeviceStatusKind → Bool
in_filter alle kind = true
in_filter (only k) kind = same_kind kind k

abbrev pub same_person : Option ℕ → Option ℕ → Bool
same_person none person = true
same_person (some id) none = false
same_person (some id) (some person) = person == id

unfoldable pub filter_tiles : List Tile → BoardFilter → Option ℕ → List Tile
filter_tiles tiles f person_id =
    filter (λ t. in_filter f t.kind && same_person person_id t.device.person_id) tiles
