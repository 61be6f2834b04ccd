-- ===== src/Devices/Tests.antt =====
-- The state filters at a small fleet: frontend/src/pages/devices/deviceList.ts.
use Prim.Native.Nat.Ordering.{lt}
use mathlib.Core.List.{Perm}
use rmm_rxf_sys_de.Base.{
  List, [], ◌∷◌, ◌++◌, length, count, ◌≤◌, ℕ, ◌≡◌, ◌≢◌, refl, ap, inl, Bool, ◌==◌, ◌&&◌, String,
  Option, none, some, str_eq, if◌then◌else◌, arith, filter, true, false, All,
}
use rmm_rxf_sys_de.Fleet.Types.{Device}
use rmm_rxf_sys_de.Pagination.{open_pager, size_25}
use rmm_rxf_sys_de.Devices.Filter.{offline, matches_filter}
use rmm_rxf_sys_de.Devices.Page.{shown, rows, render_cap, Passed, rows-Passed}
use rmm_rxf_sys_de.Base.IdSet.{has}
use rmm_rxf_sys_de.Devices.Selection.{Selection, find_index, toggle, toggle_lem}
use rmm_rxf_sys_de.Devices.Views.{
  SavedView, save, is_called, max_views, last_of, others, new_view, save_lem,
}
use rmm_rxf_sys_de.Fleet.Samples.{device, fleet, by_size, patch_summary}
use rmm_rxf_sys_de.Patches.Sort.{ListContext, desc}
use rmm_rxf_sys_de.Devices.Version.{
  compare_versions, compare_parts, compare_part, split, text_below,
}
use rmm_rxf_sys_de.Devices.Sort.{Sort, disk, agent}

-- `Number` on the parts of three versions.
abbrev number : String → Option ℕ
number t =
    if str_eq t "1"
    then some 1
    else (if str_eq t "2" then some 2 else (if str_eq t "10" then some 10 else none))

-- With a suffix the order of versions runs in a circle: 1.2 before 1.10 before 1.1a before 1.2.
compare_versions_cycle :
    (compare_versions number "1.2" "1.10" ≡ lt)
    × (compare_versions number "1.10" "1.1a" ≡ lt)
    × (compare_versions number "1.1a" "1.2" ≡ lt)
unfolding compare_versions compare_parts compare_part split text_below
compare_versions_cycle = (refl, refl, refl)

abbrev by_disk : Sort
by_disk = record { key = disk; dir = desc }

abbrev context : ListContext
context = record { patch_summary = patch_summary; person_name = λ id. "" }

disk-agent : disk ≢ agent
disk-agent h = ground arith

abbrev lower : String → String
lower t = if str_eq t "Server" then "server" else t

abbrev views : List SavedView
views = record { id = "a0"; name = "Server"; query = "filter=server" } ∷ []

save_example :
    (length (save lower "b" "server" "sort=-disk" views) ≤ max_views)
    × (count (is_called lower "server") (save lower "b" "server" "sort=-disk" views) ≡ 1)
    × (save lower "b" "server" "sort=-disk" views
        ≡ last_of lower 11 (others lower "server" views)
          ++ new_view lower "b" (length (others lower "server" views)) "server" "sort=-disk" ∷ [])
save_example = save_lem lower "b" "server" "sort=-disk" views

abbrev seven : Option ℕ → Bool
seven none = false
seven (some id) = id == 7

seven-eq : (person : Option ℕ) → seven person ≡ true → person ≡ some 7
seven-eq none h = absurd (ground arith)
seven-eq (some id) h = ap some (ground arith)

abbrev of_seven : Device → Bool
of_seven d = seven d.person_id && matches_filter d offline

-- Somebody's devices that are not connected.
rows-Passed_example :
    Perm
      (shown lower lower context by_size number offline "" (some 7) by_disk fleet)
      (filter of_seven fleet)
    × All (Passed lower lower context by_size number offline "" (some 7)) (
        rows lower lower context by_size number offline ""
          (some 7)
          by_disk
          (open_pager size_25 "")
          fleet)
    × (length (
          rows lower lower context by_size number offline ""
            (some 7)
            by_disk
            (open_pager size_25 "")
            fleet)
        ≤ render_cap)
rows-Passed_example =
    rows-Passed lower lower context by_size number offline "" (some 7) by_disk
      (open_pager size_25 "") fleet of_seven
      (λ d h. (seven-eq d.person_id (ground arith), inl refl, ground arith))
      (λ d h. simp (h.0, h.2))

abbrev picked : Selection
picked = record { selected = 3 ∷ []; anchor = some 3 }

abbrev on_page : List Device
on_page = device 3 "nas" "linux" ∷ device 5 "pi" "linux" ∷ device 9 "pc" "windows" ∷ []

-- With Shift the row between the two clicks is in the run, and a device on another page is not.
toggle_example :
    (has 5 (toggle on_page 9 true picked).selected ≡ true)
    × (has 7 (toggle on_page 9 true picked).selected ≡ false)
    × ((toggle on_page 9 true picked).anchor ≡ some 9)
unfolding find_index
toggle_example =
    toggle_lem on_page 9 2 1 7 picked true (device 5 "pi" "linux") (refl, (refl, (refl, tt))) refl
      refl refl
