-- ===== src/Palette/Build.antt =====
-- `buildPalette`: frontend/src/shell/palette/paletteModel.ts, lines 119 to 225.
pub mod Allowed
use rmm_rxf_sys_de.Base.{
  ℕ, ◌+◌, Bool, true, false, not, String, Option, none, some, List, [], ◌∷◌, ◌++◌, map, filter,
  count, length, ltb, ◌==◌, sum_of, compare, str_eq, if◌then◌else◌,
}
use rmm_rxf_sys_de.Base.Sort.{sort}
use rmm_rxf_sys_de.Base.Text.{decimal, parts, Collator}
use rmm_rxf_sys_de.Fleet.Types.{Device}
use rmm_rxf_sys_de.Fleet.People.{Role}
use rmm_rxf_sys_de.Palette.Score.{Texts, DeviceEntry}
use rmm_rxf_sys_de.Palette.Rank.{DeviceHit, rank_devices, max_device_rows}
use rmm_rxf_sys_de.Palette.Model.{
  ActionId, enroll, theme, QuickTab, GroupId, recent, actions, pages, devices, PaletteOption,
  action, page, device, quick, PaletteGroup, PaletteModel, group_label, Command, actions_for,
  pages_for, page_text, tab_text, quick_label, quick_targets, Ranked, rank_commands, best_of,
  best_hit,
}
use rmm_rxf_sys_de.Nav.{PageId}

abbrev action_text : ActionId → String
action_text enroll = "enroll"
action_text theme = "theme"

abbrev pub action_option : Command ActionId → PaletteOption
action_option a = action (parts ("action-" ∷ action_text a.id ∷ [])) a.id a.label

abbrev pub page_option : Command PageId → PaletteOption
page_option p = page (parts ("page-" ∷ page_text p.id ∷ [])) p.id p.label

abbrev pub device_option : DeviceEntry → Option String → PaletteOption
device_option e tag = device (parts ("device-" ∷ decimal e.device.id ∷ [])) e.device e.show_id tag

abbrev pub quick_option : Device → QuickTab → PaletteOption
quick_option d q =
    quick (parts ("quick-" ∷ decimal d.id ∷ "-" ∷ tab_text q ∷ [])) d q (quick_label q)

abbrev pub behind : PaletteOption → Option (List PaletteOption) → Option (List PaletteOption)
behind o none = none
behind o (some os) = some (o ∷ os)

-- The options with the quick targets below the first device, `none` without a device.
unfoldable pub insert_quick : Role → List PaletteOption → Option (List PaletteOption)
insert_quick role [] = none
insert_quick role (device key d show_id tag ∷ os) =
    some (device key d show_id tag ∷ (map (quick_option d) (quick_targets d role) ++ os))
insert_quick role (action key a label ∷ os) = behind (action key a label) (insert_quick role os)
insert_quick role (page key p label ∷ os) = behind (page key p label) (insert_quick role os)
insert_quick role (quick key d q label ∷ os) = behind (quick key d q label) (insert_quick role os)

-- A group that got its quick targets is followed by the others as they are.
abbrev pub placed_or :
    PaletteGroup
    → Option (List PaletteOption)
    → List PaletteGroup
    → List PaletteGroup
    → List PaletteGroup
placed_or g none groups placed = g ∷ placed
placed_or g (some options) groups placed = record g { options = options } ∷ groups

unfoldable pub with_quick_targets : Role → List PaletteGroup → List PaletteGroup
with_quick_targets role [] = []
with_quick_targets role (g ∷ groups) =
    placed_or g (insert_quick role g.options) groups (with_quick_targets role groups)

-- `byId.get(id)`: the last entry with the id.
unfoldable pub entry_of : ℕ → List DeviceEntry → Option DeviceEntry
entry_of id [] = none
entry_of id (e ∷ index) = elim (entry_of id index) [
  | none ↦ if e.device.id == id then some e else none
  | some later ↦ some later
]

abbrev pub recent_option : Option DeviceEntry → List PaletteOption
recent_option none = []
recent_option (some e) = device_option e none ∷ []

unfoldable pub recent_options : List DeviceEntry → List ℕ → List PaletteOption
recent_options index [] = []
recent_options index (id ∷ ids) = recent_option (entry_of id index) ++ recent_options index ids

abbrev group : GroupId → List PaletteOption → PaletteGroup
group id options = record { id = id; label = group_label id; options = options }

abbrev pub is_quick : PaletteOption → Bool
is_quick (quick key d q label) = true
is_quick _ = false

module _ (texts : Texts) (collator : Collator) (query : String) (index : List DeviceEntry)
    (last : List ℕ) (role : Role) where
  unfoldable pub start_groups : List PaletteGroup
  start_groups =
      group recent (recent_options index last)
      ∷ group actions (map action_option (actions_for role))
      ∷ group pages (map page_option (pages_for role))
      ∷ []

  abbrev found : List DeviceHit × ℕ
  found = rank_devices texts collator query index max_device_rows

  unfoldable pub found_groups : List PaletteGroup
  found_groups =
      let found_actions = rank_commands texts query (actions_for role) in
      let found_pages = rank_commands texts query (pages_for role) in
      map (λ (r : ℕ × PaletteGroup). r.1)
        (sort (λ (a b : ℕ × PaletteGroup). compare b.0 a.0)
          ((
            best_of found_actions,
            group actions (map (λ (r : Ranked ActionId). action_option r.cmd) found_actions),
          )
            ∷ (
              best_of found_pages,
              group pages (map (λ (r : Ranked PageId). page_option r.cmd) found_pages),
            )
            ∷ (
              best_hit found.0,
              group devices (map (λ (h : DeviceHit). device_option h.entry h.tag) found.0),
            )
            ∷ []))

  unfoldable pub build_palette : PaletteModel
  build_palette =
      let blank = str_eq (texts.trim (texts.normalize query)) "" in
      let groups = with_quick_targets role (
        filter (λ (g : PaletteGroup). ltb 0 (length g.options))
          (if blank then start_groups else found_groups)) in
      record {
        groups = groups;
        hits = sum_of (λ (g : PaletteGroup). count (λ o. not (is_quick o)) g.options) groups;
        devices_total = if blank then 0 else found.1;
        devices_shown = if blank then 0 else length found.0;
      }

-- `format` stands for the German number format.
unfoldable pub status_text : (format : ℕ → String) → Texts → PaletteModel → String → String
status_text format texts model query =
    if str_eq (texts.trim (texts.normalize query)) ""
    then ""
    else (if model.hits == 0
        then "Keine Treffer"
        else (if ltb model.devices_shown model.devices_total
            then parts (
                format model.devices_shown
                ∷ " von "
                ∷ format model.devices_total
                ∷ " Geräten gezeigt — Suche eingrenzen"
                ∷ [])
            else parts (format model.hits ∷ " Treffer" ∷ [])))
