-- ===== src/Palette/Model.antt =====
-- What the palette lists for a query: frontend/src/shell/palette/paletteModel.ts.

use rmm_rxf_sys_de.Base.{
  ℕ, Bool, true, false, not, ◌&&◌, ◌||◌, String, Option, List, [], ◌∷◌, map, filter, any, ltb,
  compare, str_eq, if◌then◌else◌,
}
use rmm_rxf_sys_de.Base.Sort.{sort}
use rmm_rxf_sys_de.Fleet.Types.{Device}
use rmm_rxf_sys_de.Fleet.People.{Role, admin, techniker, viewer}
use rmm_rxf_sys_de.Fleet.Status.{is_agent}
use rmm_rxf_sys_de.Nav.{PageId, NavItem, Tab, TabId, visible_groups, items_of, visible_tabs}
use rmm_rxf_sys_de.Palette.Tier.{Field, term_score}
use rmm_rxf_sys_de.Palette.Score.{Texts, score_query}
use rmm_rxf_sys_de.Palette.Rank.{DeviceHit}

pub data ActionId : Type 0 where
  enroll theme : ActionId

pub data QuickTab : Type 0 where
  remote patches jobs : QuickTab

pub data GroupId : Type 0 where
  recent actions pages devices : GroupId

pub data PaletteOption : Type 0 where
  action : (key : String) → ActionId → (label : String) → PaletteOption
  page : (key : String) → PageId → (label : String) → PaletteOption
  device : (key : String) → Device → (show_id : Bool) → (tag : Option String) → PaletteOption
  quick : (key : String) → Device → QuickTab → (label : String) → PaletteOption

pub record PaletteGroup : Type 0 where
  pub id : GroupId
  pub label : String
  pub options : List PaletteOption

pub record PaletteModel : Type 0 where
  pub groups : List PaletteGroup
  pub hits : ℕ
  pub devices_total : ℕ
  pub devices_shown : ℕ

abbrev pub group_label : GroupId → String
group_label recent = "Zuletzt geöffnet"
group_label actions = "Aktionen"
group_label pages = "Seiten"
group_label devices = "Geräte"

unfoldable pub role_of : Bool → Bool → Role
role_of is_admin can_enroll = if is_admin then admin else (if can_enroll then techniker else viewer)

pub record Command (T : Type 0) : Type 0 where
  pub id : T
  pub label : String
  pub keywords : List String

abbrev pub is_operator : Role → Bool
is_operator viewer = false
is_operator techniker = true
is_operator admin = true

abbrev pub is_admin : Role → Bool
is_admin admin = true
is_admin techniker = false
is_admin viewer = false

abbrev enroll_command : Command ActionId
enroll_command = record {
  id = enroll;
  label = "Gerät hinzufügen";
  keywords = "Neues Gerät" ∷ "Agent installieren" ∷ "Enrollment" ∷ "Token" ∷ [];
}

abbrev theme_command : Command ActionId
theme_command = record {
  id = theme;
  label = "Design wechseln";
  keywords = "Theme" ∷ "Hell" ∷ "Dunkel" ∷ "Dark Mode" ∷ "Farbschema" ∷ [];
}

-- The actions, each with whether it is for operators only.
abbrev action_list : List (Command ActionId × Bool)
action_list = (enroll_command, true) ∷ (theme_command, false) ∷ []

abbrev pub actions_for : Role → List (Command ActionId)
actions_for role =
    map (λ (a : Command ActionId × Bool). a.0)
      (filter (λ (a : Command ActionId × Bool). not a.1 || is_operator role) action_list)

abbrev page_keywords : PageId → List String
page_keywords PageId.overview = "Start" ∷ "Dashboard" ∷ "Lage" ∷ []
page_keywords PageId.devices = "Rechner" ∷ "Computer" ∷ "Flotte" ∷ []
page_keywords PageId.persons = "Mitarbeiter" ∷ "Benutzer" ∷ []
page_keywords PageId.alerts = "Alarme" ∷ "Warnungen" ∷ []
page_keywords PageId.patches = "Updates" ∷ "Patch-Management" ∷ []
page_keywords PageId.scripts = "Skript-Bibliothek" ∷ []
page_keywords PageId.automation = "Zeitpläne" ∷ "Regeln" ∷ []
page_keywords PageId.docs = "Hilfe" ∷ "Handbuch" ∷ []
page_keywords PageId.audit = "Protokoll" ∷ "Log" ∷ []
page_keywords PageId.admin = "Einstellungen" ∷ "Konten" ∷ []

-- The page as its id is spelled.
abbrev pub page_text : PageId → String
page_text PageId.overview = "overview"
page_text PageId.devices = "devices"
page_text PageId.persons = "persons"
page_text PageId.alerts = "alerts"
page_text PageId.patches = "patches"
page_text PageId.scripts = "scripts"
page_text PageId.automation = "automation"
page_text PageId.docs = "docs"
page_text PageId.audit = "audit"
page_text PageId.admin = "admin"

abbrev page_command : NavItem → Command PageId
page_command i = record { id = i.id; label = i.label; keywords = page_keywords i.id }

abbrev pub pages_for : Role → List (Command PageId)
pages_for role = map page_command (items_of (visible_groups role))

abbrev pub tab_text : QuickTab → String
tab_text remote = "remote"
tab_text patches = "patches"
tab_text jobs = "jobs"

abbrev tab_id : TabId → String
tab_id TabId.overview = "overview"
tab_id TabId.history = "history"
tab_id TabId.inventory = "inventory"
tab_id TabId.remote = "remote"
tab_id TabId.patches = "patches"
tab_id TabId.passwords = "passwords"
tab_id TabId.diagnostics = "diagnostics"
tab_id TabId.jobs = "jobs"
tab_id TabId.mdm = "mdm"

abbrev pub quick_label : QuickTab → String
quick_label remote = "Terminal"
quick_label patches = "Updates"
quick_label jobs = "Aktivität"

abbrev operator_only : QuickTab → Bool
operator_only remote = true
operator_only patches = false
operator_only jobs = true

unfoldable pub quick_targets : Device → Role → List QuickTab
quick_targets d role =
    let tabs = visible_tabs (is_admin role) (is_operator role) (is_agent d) false in
    filter
      (λ q.
        (not (operator_only q) || is_operator role)
        && any (λ (t : Tab). str_eq (tab_id t.id) (tab_text q)) tabs)
      (remote ∷ patches ∷ jobs ∷ [])

pub record Ranked (T : Type 0) : Type 0 where
  pub cmd : Command T
  pub score : ℕ

abbrev command_field : Texts → ℕ → String → Field
command_field texts weight t = record { text = texts.normalize t; weight = weight }

module _ {T : Type 0} (texts : Texts) (query : String) where
  abbrev command_fields : Command T → List Field
  command_fields c = command_field texts 2 c.label ∷ map (command_field texts 1) c.keywords

  abbrev pub ranked : Command T → Ranked T
  ranked c = record {
    cmd = c;
    score = score_query texts query (term_score texts.is_word (command_fields c));
  }

  unfoldable pub rank_commands : List (Command T) → List (Ranked T)
  rank_commands commands =
      sort (λ (a b : Ranked T). compare b.score a.score)
        (filter (λ (r : Ranked T). ltb 0 r.score) (map ranked commands))

abbrev pub best_of : {T : Type 0} → List (Ranked T) → ℕ
best_of [] = 0
best_of (r ∷ rs) = r.score

abbrev pub best_hit : List DeviceHit → ℕ
best_hit [] = 0
best_hit (h ∷ hits) = h.score
