-- ===== src/Devices/Sort.antt =====
-- frontend/src/pages/devices/deviceList.ts, lines 89 to 202: the columns of the device list, their
-- address form and the order of the rows.
pub mod Laws
use Prim.Native.String
use Prim.Native.Nat.Ordering.{lt, gt}
use mathlib.Core.Option
use rmm_rxf_sys_de.Base.{
  ℕ, ◌+◌, ◌*◌, Bool, ◌&&◌, not, String, Option, none, some, List, map, Ordering, compare,
  if◌then◌else◌, str_eq,
}
use rmm_rxf_sys_de.Base.Compare.{then_by}
use rmm_rxf_sys_de.Base.Sort.{sort}
use rmm_rxf_sys_de.Base.Text.{decimal, Collator}
use rmm_rxf_sys_de.Fleet.Types.{Device, PatchSummary, PatchCounts, lookup}
use rmm_rxf_sys_de.Fleet.Status.{DeviceStatusKind, device_status_kind, is_agent}
use rmm_rxf_sys_de.Patches.Sort.{
  SortDir, asc, desc, split_minus, ListContext, Value, num, text, owner_of, text_or_none, turned,
  is_desc, signed,
}
use rmm_rxf_sys_de.Devices.Filter.{live_pct, cpu_pct, mem_pct, disk_pct, last_seen}
use rmm_rxf_sys_de.Devices.Version.{compare_versions}

pub data SortKey : Type 0 where
  name status person cpu ram disk updates agent seen : SortKey

pub record Sort : Type 0 where
  pub key : SortKey
  pub dir : SortDir

abbrev pub key_text : SortKey → String
key_text name = "name"
key_text status = "status"
key_text person = "person"
key_text cpu = "cpu"
key_text ram = "ram"
key_text disk = "disk"
key_text updates = "updates"
key_text agent = "agent"
key_text seen = "seen"

-- `SORT_KEYS.includes(key)`, with the key that it is.
unfoldable pub key_of : String → Option SortKey
key_of t =
    if str_eq t "name"
    then some name
    else (if str_eq t "status"
        then some status
        else (if str_eq t "person"
            then some person
            else (if str_eq t "cpu"
                then some cpu
                else (if str_eq t "ram"
                    then some ram
                    else (if str_eq t "disk"
                        then some disk
                        else (if str_eq t "updates"
                            then some updates
                            else (if str_eq t "agent"
                                then some agent
                                else (if str_eq t "seen" then some seen else none))))))))

abbrev pub first_dir : SortKey → SortDir
first_dir name = asc
first_dir person = asc
first_dir agent = asc
first_dir _ = desc

abbrev pub default_sort : Sort
default_sort = record { key = status; dir = desc }

unfoldable pub parse_sort : Option String → Sort
unfolding key_of
parse_sort none = default_sort
parse_sort (some raw) =
    let (minus, rest) = split_minus raw in
    elim (key_of rest) [
      | some k ↦ record { key = k; dir = if minus then desc else asc }
      | none ↦ default_sort
    ]

abbrev same_key : SortKey → SortKey → Bool
same_key k l = str_eq (key_text k) (key_text l)

unfoldable pub format_sort : Sort → Option String
format_sort s =
    if same_key s.key default_sort.key && is_desc s.dir
    then none
    else some (String.◌++◌ (if is_desc s.dir then "-" else "") (key_text s.key))

unfoldable pub next_sort : Sort → SortKey → Sort
next_sort current key =
    if same_key current.key key
    then record { key = key; dir = turned current.dir }
    else record { key = key; dir = first_dir key }

-- `SEVERITY`
abbrev pub severity : DeviceStatusKind → ℕ
severity DeviceStatusKind.danger = 4
severity DeviceStatusKind.warn = 3
severity DeviceStatusKind.off = 2
severity DeviceStatusKind.ok = 1
severity DeviceStatusKind.noagent = 0

abbrev pub updates_rank : Device → PatchSummary → Option ℕ
updates_rank d ps =
    Option.map (λ (p : PatchCounts). p.security * 100000 + p.pending) (lookup d.id ps)

unfoldable pub value : Device → SortKey → ListContext → Option Value
value d name ctx = Option.map text (some d.hostname)
value d status ctx = Option.map num (some (severity (device_status_kind d)))
value d person ctx = Option.map text (text_or_none (owner_of d ctx.person_name))
value d cpu ctx = Option.map num (live_pct d cpu_pct)
value d ram ctx = Option.map num (live_pct d mem_pct)
value d disk ctx = Option.map num (disk_pct d)
value d updates ctx = Option.map num (updates_rank d ctx.patch_summary)
value d agent ctx =
    Option.map text
      (if is_agent d && not (str_eq d.agent_version "") then some d.agent_version else none)
value d seen ctx = Option.map num (last_seen d)

abbrev string_of : Value → String
string_of (num n) = decimal n
string_of (text t) = t

module _ (collator : Collator) (number : String → Option ℕ) where
  abbrev pub compare_plain : Value → Value → Ordering
  compare_plain (num m) (num n) = compare m n
  compare_plain v w = collator.compare (string_of v) (string_of w)

  abbrev pub compare_value : SortKey → Value → Value → Ordering
  compare_value agent v w = compare_versions number (string_of v) (string_of w)
  compare_value _ v w = compare_plain v w

  -- The comparator of `sortDevices`, on the pairs of a device and its value.
  abbrev pub compare_keyed : Sort → Device × Option Value → Device × Option Value → Ordering
  compare_keyed s (a, none) (b, none) = collator.compare a.hostname b.hostname
  compare_keyed s (a, none) (b, some w) = gt
  compare_keyed s (a, some v) (b, none) = lt
  compare_keyed s (a, some v) (b, some w) =
      then_by (signed s.dir (compare_value s.key v w)) (collator.compare a.hostname b.hostname)

  unfoldable pub sort_devices : List Device → Sort → ListContext → List Device
  sort_devices devices s ctx =
      map (λ k. k.0) (sort (compare_keyed s) (map (λ d. (d, value d s.key ctx)) devices))
