-- ===== src/Nav.antt =====
-- The pages and who sees them: frontend/src/routes.ts and frontend/src/shell/nav.tsx, and the tabs of
-- a device page: frontend/src/pages/device/deviceTabs.ts. Icons are left out.
use rmm_rxf_sys_de.Base.{
  Bool, true, false, not, ◌&&◌, ◌||◌, String, Option, none, some, List, [], ◌∷◌, ◌++◌, map, filter,
  any, length, ltb,
}
use rmm_rxf_sys_de.Fleet.People.{Role}
use rmm_rxf_sys_de.Shortcuts.{GoShortcut}

pub data PageId : Type 0 where
  overview devices persons alerts patches scripts automation docs audit admin : PageId

abbrev pub page_path : PageId → String
page_path overview = "/"
page_path devices = "/devices"
page_path persons = "/personen"
page_path alerts = "/alarme"
page_path patches = "/patches"
page_path scripts = "/skripte"
page_path automation = "/automatisierung"
page_path docs = "/doku"
page_path audit = "/audit"
page_path admin = "/administration"

abbrev pub page_label : PageId → String
page_label overview = "Übersicht"
page_label devices = "Geräte"
page_label persons = "Personen"
page_label alerts = "Alarm-Center"
page_label patches = "Patches"
page_label scripts = "Skripte"
page_label automation = "Automatisierung"
page_label docs = "Dokumentation"
page_label audit = "Audit-Log"
page_label admin = "Administration"

pub record NavItem : Type 0 where
  pub id : PageId
  pub label : String
  pub path : String
  -- `none` for everyone
  pub roles : Option (List Role)

pub record NavGroup : Type 0 where
  pub label : String
  pub items : List NavItem

abbrev item : PageId → Option (List Role) → NavItem
item id roles = record { id = id; label = page_label id; path = page_path id; roles = roles }

abbrev nav_groups : List NavGroup
nav_groups =
    record {
      label = "Betrieb";
      items = item overview none ∷ item devices none ∷ item alerts none ∷ item patches none ∷ [];
    }
    ∷ record {
      label = "Werkzeuge";
      items = item scripts (some (Role.admin ∷ Role.techniker ∷ [])) ∷ item automation none ∷ [];
    }
    ∷ record {
      label = "Verwaltung";
      items =
          item persons none
          ∷ item audit (some (Role.admin ∷ []))
          ∷ item admin (some (Role.admin ∷ []))
          ∷ item docs none
          ∷ [];
    }
    ∷ []

abbrev same_role : Role → Role → Bool
same_role Role.admin Role.admin = true
same_role Role.techniker Role.techniker = true
same_role Role.viewer Role.viewer = true
same_role _ _ = false

abbrev open_to : Role → Option (List Role) → Bool
open_to role none = true
open_to role (some roles) = any (same_role role) roles

abbrev seen_by : Role → NavGroup → NavGroup
seen_by role g = record g { items = filter (λ (i : NavItem). open_to role i.roles) g.items }

unfoldable pub visible_groups : Role → List NavGroup
visible_groups role =
    filter (λ (g : NavGroup). ltb 0 (length g.items)) (map (seen_by role) nav_groups)

abbrev pub items_of : List NavGroup → List NavItem
items_of [] = []
items_of (g ∷ groups) = g.items ++ items_of groups

abbrev go_key : PageId → Option String
go_key overview = some "o"
go_key devices = some "d"
go_key alerts = some "a"
go_key patches = some "p"
go_key scripts = some "s"
go_key automation = some "u"
go_key audit = some "l"
go_key _ = none

abbrev shortcut : NavItem → Option String → List GoShortcut
shortcut i none = []
shortcut i (some key) = record { key = key; path = i.path; label = i.label } ∷ []

abbrev shortcuts : List NavItem → List GoShortcut
shortcuts [] = []
shortcuts (i ∷ items) = shortcut i (go_key i.id) ++ shortcuts items

unfoldable pub go_shortcuts_for : Role → List GoShortcut
go_shortcuts_for role = shortcuts (items_of (visible_groups role))

pub data TabId : Type 0 where
  overview history inventory remote patches passwords diagnostics jobs mdm : TabId

pub record Tab : Type 0 where
  pub id : TabId
  pub label : String
  pub admin_only : Bool
  pub operator_only : Bool
  pub agent_only : Bool
  pub apple_only : Bool

-- A tab and who sees it: administrators, operators, devices with an agent, Apple phones only.
abbrev tab : TabId → String → Bool → Bool → Bool → Bool → Tab
tab id label for_admin for_operator for_agent for_apple = record {
  id = id;
  label = label;
  admin_only = for_admin;
  operator_only = for_operator;
  agent_only = for_agent;
  apple_only = for_apple;
}

abbrev tabs : List Tab
tabs =
    tab TabId.overview "Übersicht" false false false false
    ∷ tab mdm "MDM" false false false true
    ∷ tab history "Verlauf" false false true false
    ∷ tab inventory "Inventar" false false true false
    ∷ tab remote "Fernzugriff" false true true false
    ∷ tab TabId.patches "Updates" false false true false
    ∷ tab jobs "Aktivität" false true true false
    ∷ tab diagnostics "Diagnose" false true true false
    ∷ tab passwords "Passwörter" true false false false
    ∷ []

unfoldable pub visible_tabs : Bool → Bool → Bool → Bool → List Tab
visible_tabs is_admin is_operator agent apple =
    filter
      (λ (t : Tab).
        (not t.admin_only || is_admin)
        && (not t.operator_only || is_operator)
        && (not t.agent_only || agent)
        && (not t.apple_only || apple))
      tabs
