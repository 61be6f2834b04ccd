-- ===== src/Patches/List.antt =====
-- Which devices the page of updates lists: frontend/src/pages/patches/PatchesPage.tsx, lines 256 to
-- 338 and 543 to 555, with the tests and the search of patchList.ts beside it.
pub mod Counts
use rmm_rxf_sys_de.Base.{
  ℕ, Bool, true, false, not, ◌&&◌, ◌||◌, String, Option, none, some, is_some, List, [], ◌∷◌, filter,
  take, count, length, ltb, str_eq, if◌then◌else◌,
}
use rmm_rxf_sys_de.Base.Search.{contains}
use rmm_rxf_sys_de.Base.Text.{Collator, join}
use rmm_rxf_sys_de.Fleet.Types.{Device}
use rmm_rxf_sys_de.Address.{Params, get, set_param, person_filter}
use rmm_rxf_sys_de.Palette.Score.{os_label}
use rmm_rxf_sys_de.Pagination.{Pager}
use rmm_rxf_sys_de.Pagination.View.{paginate}
use rmm_rxf_sys_de.Devices.Page.{wanted, render_cap}
use rmm_rxf_sys_de.Patches.Filter.{
  OsCategory, win_pc, win_server, mac, linux, OsFilter, only, os_categories, category_of,
  matches_os, StateFilter, sicherheit, offen, aktuell, ungeprueft, matches_state, ConnFilter,
  verbunden, offline, matches_conn,
}
use rmm_rxf_sys_de.Patches.Sort.{Sort, ListContext, owner_of, parse_sort, sort_devices}

abbrev pub os_category_text : OsCategory → String
os_category_text win_pc = "win_pc"
os_category_text win_server = "win_server"
os_category_text mac = "mac"
os_category_text linux = "linux"

abbrev pub os_category_label : OsCategory → String
os_category_label win_pc = "Windows PC"
os_category_label win_server = "Windows Server"
os_category_label mac = "Mac"
os_category_label linux = "Linux"

abbrev pub state_filters : List StateFilter
state_filters = StateFilter.alle ∷ sicherheit ∷ offen ∷ aktuell ∷ ungeprueft ∷ []

abbrev pub state_text : StateFilter → String
state_text StateFilter.alle = "alle"
state_text sicherheit = "sicherheit"
state_text offen = "offen"
state_text aktuell = "aktuell"
state_text ungeprueft = "ungeprueft"

abbrev state_among : String → List StateFilter → StateFilter
state_among t [] = StateFilter.alle
state_among t (f ∷ fs) = if str_eq (state_text f) t then f else state_among t fs

-- `isStateFilter(rawState) ? rawState : 'alle'`
unfoldable pub state_of : Option String → StateFilter
state_of none = StateFilter.alle
state_of (some t) = state_among t state_filters

abbrev os_among : String → List OsCategory → OsFilter
os_among t [] = OsFilter.alle
os_among t (c ∷ cs) = if str_eq (os_category_text c) t then only c else os_among t cs

unfoldable pub os_of : Option String → OsFilter
os_of none = OsFilter.alle
os_of (some t) = os_among t os_categories

unfoldable pub conn_of : Option String → ConnFilter
conn_of none = ConnFilter.alle
conn_of (some t) =
    if str_eq t "verbunden"
    then verbunden
    else (if str_eq t "offline" then offline else ConnFilter.alle)

-- What the address asks for; the search is the page's own.
pub record View : Type 0 where
  pub state : StateFilter
  pub os : OsFilter
  pub conn : ConnFilter
  pub person : Option ℕ
  pub sort : Sort

unfoldable pub read_view : Params → View
read_view ps = record {
  state = state_of (get "filter" ps);
  os = os_of (get "os" ps);
  conn = conn_of (get "conn" ps);
  person = person_filter ps;
  sort = parse_sort (get "sort" ps);
}

-- `lower` and `trim` stand for the methods of texts.
module _ (lower trim : String → String) where
  abbrev hay : Device → String → String
  hay d owner = join " " (
      d.hostname
      ∷ owner
      ∷ join " " d.tags
      ∷ os_label d.os
      ∷ d.os_version
      ∷ os_category_label (category_of d)
      ∷ [])

  unfoldable pub matches_query : Device → (query owner : String) → Bool
  matches_query d query owner =
      let q = lower (trim query) in str_eq q "" || contains (lower (hay d owner)) q

  unfoldable pub narrowed_otherwise : View → String → Bool
  narrowed_otherwise v q =
      is_only v.os || (is_some_conn v.conn || (is_some v.person || not (str_eq (trim q) "")))
    where
      is_only : OsFilter → Bool
      is_only OsFilter.alle = false
      is_only (only c) = true

      is_some_conn : ConnFilter → Bool
      is_some_conn ConnFilter.alle = false
      is_some_conn _ = true

  unfoldable pub is_narrowed : View → String → Bool
  is_narrowed v q = not (str_eq (state_text v.state) "alle") || narrowed_otherwise v q

  module _ (ctx : ListContext) (now : ℕ) where
    -- The person, the connection and the search.
    unfoldable pub is_base : View → String → Device → Bool
    is_base v q d =
        wanted v.person d.person_id
        && (matches_conn d v.conn && matches_query d q (owner_of d ctx.person_name))

    abbrev pub base : View → String → List Device → List Device
    base v q devices = filter (is_base v q) devices

    abbrev pub is_shown : View → Device → Bool
    is_shown v d = matches_os d v.os && matches_state d v.state ctx.patch_summary now

    -- The numbers on the buttons of the two filters.
    unfoldable pub state_count : View → String → List Device → StateFilter → Option ℕ
    state_count v q devices StateFilter.alle = none
    state_count v q devices f = some (count (is_shown (record v { state = f })) (base v q devices))

    unfoldable pub os_count : View → String → List Device → OsCategory → ℕ
    os_count v q devices c = count (is_shown (record v { os = only c })) (base v q devices)

    module _ (collator : Collator) where
      unfoldable pub shown : View → String → List Device → List Device
      shown v q devices = sort_devices collator (filter (is_shown v) (base v q devices)) v.sort ctx

      unfoldable pub rows : View → String → Pager → List Device → List Device
      rows v q p devices =
          let items = (paginate (shown v q devices) p).items in
          if ltb render_cap (length items) then take render_cap items else items

-- The search and the filters that a click on "Filter zurücksetzen" leaves.
unfoldable pub reset_filters : Params → String × Params
reset_filters ps = (
  "",
  set_param (("filter", none) ∷ ("os", none) ∷ ("conn", none) ∷ ("person", none) ∷ ("q", none) ∷ [])
      ps,
)
