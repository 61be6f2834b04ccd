-- ===== src/Devices/Filter.antt =====
-- frontend/src/pages/devices/deviceList.ts, lines 15 to 85: which devices a filter keeps, and the
-- figures of one device.
use rmm_rxf_sys_de.Base.{
  ℕ, ◌+◌, ◌≡◌, Bool, true, not, ◌&&◌, Option, none, some, List, [], ◌∷◌, arith, length, count,
  or_else, if◌then◌else◌,
}
use rmm_rxf_sys_de.Fleet.Types.{Device}
use rmm_rxf_sys_de.Fleet.Status.{is_agent, has_problem, device_state, fullest}
use rmm_rxf_sys_de.Patches.Filter.{includes}

pub data Filter : Type 0 where
  alle ok probleme server familie offline mobil : Filter

unfoldable pub matches_filter : Device → Filter → Bool
matches_filter d mobil = not (is_agent d)
matches_filter d ok = is_agent d && (d.online && not (has_problem d))
matches_filter d server = includes d.tags "server"
matches_filter d familie = includes d.tags "familie"
matches_filter d probleme = is_agent d && has_problem d
matches_filter d offline = is_agent d && not d.online
matches_filter d alle = true

-- Used space is never negative, so the maximum of a list that is not empty is `fullest`.
unfoldable pub disk_pct : Device → Option ℕ
disk_pct d =
    if is_agent d
    then elim (or_else d.heartbeat.disks []) [ [] ↦ none | x ∷ xs ↦ some (fullest (x ∷ xs)) ]
    else none

pub data LiveKey : Type 0 where
  cpu_pct mem_pct : LiveKey

-- JSON has no number that is not finite.
unfoldable pub live_pct : Device → LiveKey → Option ℕ
live_pct d key =
    if is_agent d && d.online
    then elim key [ cpu_pct ↦ d.heartbeat.cpu_pct | mem_pct ↦ d.heartbeat.mem_pct ]
    else none

unfoldable pub last_seen : Device → Option ℕ
last_seen d = if is_agent d then d.last_seen_at else d.checked_at

problem-online : (d : Device) → has_problem d ≡ true → d.online ≡ true
unfolding has_problem device_state
problem-online d h = ground arith

abbrev kept : Filter → Device → Bool
kept f d = matches_filter d f

-- The filters for the state of a device divide the fleet: every device is kept by exactly one of
-- "in order", "problems", "offline" and "without agent", so their counts add up to the fleet.
pub state_filters_partition :
    (devices : List Device)
    → count (λ d. matches_filter d ok) devices
        + count (λ d. matches_filter d probleme) devices
        + count (λ d. matches_filter d offline) devices
        + count (λ d. matches_filter d mobil) devices
      ≡ length devices
unfolding matches_filter
state_filters_partition [] = omega arith
state_filters_partition (d ∷ devices) =
    ground (arith, problem-online d, state_filters_partition devices)
