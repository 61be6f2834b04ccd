-- ===== src/Patches/Tests.antt =====
-- The properties of the update page at a small fleet: frontend/src/pages/patches/patchList.ts.
use mathlib.Core.List.{Perm}
use rmm_rxf_sys_de.Patches.List.{View, state_count, os_count, is_base, matches_query, shown}
use rmm_rxf_sys_de.Patches.List.Counts.{option_counts}
use rmm_rxf_sys_de.Base.{String, refl, length, sum_of, List, [], true, some, none, ◌∷◌, ℕ, ◌≡◌}
use rmm_rxf_sys_de.Base.Table.{InOrder}
use rmm_rxf_sys_de.Fleet.Samples.{by_size, fleet, patch_summary, laptop}
use rmm_rxf_sys_de.Fleet.Types.{Device, IosStatus}
use rmm_rxf_sys_de.Patches.Stats.{patch_stats}
use rmm_rxf_sys_de.Patches.Stats.Laws.{patch_stats-eq-counts}
use rmm_rxf_sys_de.Patches.Filter.{
  StateFilter, sicherheit, OsFilter, only, ConnFilter, win_pc, os_categories, matches_conn,
  matches_os, pending_of, security_of, never_scanned, scan_stale, is_current, matches_state,
}
use rmm_rxf_sys_de.Patches.Sort.{value, Sort, ListContext, sort_devices, pending, desc}
use rmm_rxf_sys_de.Patches.Sort.Laws.{sort_devices-InOrder, Before, Equal, by_hostname}

abbrev now : ℕ
now = 2000

abbrev by_pending : Sort
by_pending = record { key = pending; dir = desc }

abbrev context : ListContext
context = record { patch_summary = patch_summary; person_name = λ id. "" }

patch_stats_example : patch_stats fleet patch_summary now ≡ record {
  devices = 3;
  with_pending = 2;
  pending = 5;
  security = 2;
  security_devices = 1;
  stale = 1;
  never = 1;
  current = 0;
}
unfolding matches_state pending_of security_of never_scanned scan_stale is_current
patch_stats_example = patch_stats-eq-counts fleet patch_summary now

sort_devices_order_example :
    Perm (sort_devices by_size fleet by_pending context) fleet
    × InOrder
        (Before by_size desc)
        (Equal by_size)
        (by_hostname by_size)
        (λ d. value d pending context)
        (sort_devices by_size fleet by_pending context)
sort_devices_order_example = sort_devices-InOrder by_size by_pending context fleet

abbrev phone : ℕ → IosStatus → Device
phone id status = record laptop {
  id = id;
  mdm = some (record {
    enrolled_at = 1;
    last_seen_at = 2;
    checked_out_at = none;
    reachable = true;
    passcode_present = none;
    identity_expires_at = none;
    os_version = none;
    os_status = status;
    os_latest = none;
  });
}

abbrev phones : List Device
phones =
    phone 1 IosStatus.major_behind ∷ phone 2 IosStatus.outdated ∷ phone 3 IosStatus.current ∷ []

abbrev whole : View
whole = record {
  state = StateFilter.alle;
  os = OsFilter.alle;
  conn = ConnFilter.alle;
  person = none;
  sort = by_pending;
}

abbrev plain : String → String
plain t = t

option_counts_example :
    (length (shown plain plain context now by_size (record whole { state = sicherheit }) "" fleet)
      ≡ 1)
    × (length (shown plain plain context now by_size (record whole { os = only win_pc }) "" fleet)
        ≡ os_count plain plain context now whole "" fleet win_pc)
    × (sum_of (os_count plain plain context now whole "" fleet) os_categories
        ≡ length (shown plain plain context now by_size whole "" fleet))
unfolding state_count is_base matches_conn matches_query matches_os matches_state security_of
option_counts_example =
    option_counts plain plain context now by_size whole "" fleet sicherheit 1 win_pc refl
