-- ===== src/Patches/Filter.antt =====
-- frontend/src/pages/patches/patchList.ts, lines 13 to 118: system groups, the figures of one
-- device and the filters. Times are whole seconds, so where the source computes a negative age the
-- model has 0, which is below every limit that an age is held against.
use rmm_rxf_sys_de.Base.{
  ℕ, ◌-◌, ◌*◌, Bool, true, false, not, ◌||◌, String, Option, none, some, List, [], ◌∷◌, leb, ltb,
  if◌then◌else◌, any, or_else, str_eq,
}
use rmm_rxf_sys_de.Fleet.Types.{Device, PatchSummary, lookup}

pub data OsCategory : Type 0 where
  win_pc win_server mac linux : OsCategory

-- `alle` is every group.
pub data OsFilter : Type 0 where
  alle : OsFilter
  only : OsCategory → OsFilter

abbrev pub os_categories : List OsCategory
os_categories = win_pc ∷ win_server ∷ mac ∷ linux ∷ []

abbrev pub includes : List String → String → Bool
includes xs x = any (λ y. str_eq y x) xs

unfoldable pub category_of : Device → OsCategory
category_of d =
    if str_eq d.os "darwin"
    then mac
    else (if str_eq d.os "windows"
        then (if includes d.tags "server" then win_server else win_pc)
        else linux)

abbrev pub same_category : OsCategory → OsCategory → Bool
same_category win_pc win_pc = true
same_category win_server win_server = true
same_category mac mac = true
same_category linux linux = true
same_category _ _ = false

unfoldable pub matches_os : Device → OsFilter → Bool
unfolding category_of
matches_os d alle = true
matches_os d (only c) = same_category (category_of d) c

abbrev pub stale_after_s : ℕ
stale_after_s = 24 * 3600

unfoldable pub pending_of : Device → PatchSummary → Option ℕ
pending_of d ps = elim (lookup d.id ps) [
  | some p ↦ some p.pending
  | none ↦ if ltb 0 d.last_patch_scan_at then some 0 else none
]

unfoldable pub security_of : Device → PatchSummary → ℕ
security_of d ps = elim (lookup d.id ps) [ some p ↦ p.security | none ↦ 0 ]

unfoldable pub never_scanned : Device → Bool
never_scanned d = leb d.last_patch_scan_at 0

unfoldable pub scan_stale : Device → ℕ → Bool
unfolding never_scanned
scan_stale d now = never_scanned d || leb stale_after_s (now - d.last_patch_scan_at)

abbrev is_zero : Option ℕ → Bool
is_zero none = false
is_zero (some n) = leb n 0

unfoldable pub is_current : Device → PatchSummary → Bool
unfolding pending_of
is_current d ps = is_zero (pending_of d ps)

pub data StateFilter : Type 0 where
  alle sicherheit offen aktuell ungeprueft : StateFilter

unfoldable pub matches_state : Device → StateFilter → PatchSummary → ℕ → Bool
matches_state d sicherheit ps now = ltb 0 (security_of d ps)
matches_state d offen ps now = ltb 0 (or_else (pending_of d ps) 0)
matches_state d aktuell ps now = is_current d ps
matches_state d ungeprueft ps now = scan_stale d now
matches_state d StateFilter.alle ps now = true

pub data ConnFilter : Type 0 where
  alle verbunden offline : ConnFilter

unfoldable pub matches_conn : Device → ConnFilter → Bool
matches_conn d verbunden = d.connected
matches_conn d offline = not d.connected
matches_conn d ConnFilter.alle = true
