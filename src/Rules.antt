-- ===== src/Rules.antt =====
-- Alert rules in words, and which rule applies to a device: frontend/src/ruleText.ts. The types are
-- those of frontend/src/types.ts, lines 174 to 187.
pub mod Effective
mod Tests
use Prim.Native.Nat.{◌%◌}
use mathlib.Core.Option
use rmm_rxf_sys_de.Base.{
  ℕ, ◌*◌, ◌/◌, ◌-◌, Bool, ◌&&◌, String, Option, none, some, List, [], ◌∷◌, ◌==◌, leb, ltb, filter,
  find, length, or_else, str_eq, if◌then◌else◌, compare, Ordering, get_elem?,
}
use rmm_rxf_sys_de.Base.Sort.{sort}
use rmm_rxf_sys_de.Base.Text.{decimal, parts, round_div}
use rmm_rxf_sys_de.Fleet.Types.{Device}
use rmm_rxf_sys_de.Fleet.People.{Person}
use rmm_rxf_sys_de.Patches.Filter.{includes}

pub data RuleType : Type 0 where
  offline disk patch_age mdm_silent mdm_passcode mdm_identity : RuleType

pub data ScopeKind : Type 0 where
  every tag person : ScopeKind

pub record AlertRule : Type 0 where
  pub id : ℕ
  pub type : RuleType
  pub enabled : Bool
  pub threshold : Option ℕ
  pub scope_kind : ScopeKind
  pub scope_value : String
  pub created_at : ℕ

abbrev pub rule_default : RuleType → ℕ
rule_default offline = 300
rule_default disk = 90
rule_default patch_age = 30
rule_default mdm_silent = 7
rule_default mdm_passcode = 0
rule_default mdm_identity = 14

-- `${n} ${unit}`, with the ending of the plural
abbrev pub counted : ℕ → String → String → String
counted n unit ending = parts (decimal n ∷ " " ∷ unit ∷ (if n == 1 then "" else ending) ∷ [])

unfoldable pub human_seconds : ℕ → String
human_seconds s =
    if s % 86400 == 0 && leb 86400 s
    then counted (s / 86400) "Tag" "e"
    else (if s % 3600 == 0 && leb 3600 s
        then counted (s / 3600) "Stunde" "n"
        else (if s % 60 == 0 && leb 60 s
            then counted (s / 60) "Minute" "n"
            else counted s "Sekunde" "n"))

-- The subtraction stops at 0, as `Math.max(0, …)` does.
unfoldable pub since_label : ℕ → ℕ → String
since_label from now =
    let s = now - from in
    if ltb s 90
    then "gerade eben"
    else (if ltb s 5400
        then parts ("seit " ∷ decimal (round_div s 60) ∷ " Min." ∷ [])
        else (if ltb s (36 * 3600)
            then parts ("seit " ∷ decimal (round_div s 3600) ∷ " Std." ∷ [])
            else parts ("seit " ∷ decimal (round_div s 86400) ∷ " Tagen" ∷ [])))

abbrev suffix_of : Option ℕ → String
suffix_of none = " (Standard)"
suffix_of (some n) = ""

abbrev sentence : RuleType → ℕ → String → String
sentence offline n suffix = parts (
    "Meldet sich ein Gerät länger als "
    ∷ human_seconds n
    ∷ suffix
    ∷ " nicht, löst das einen Alarm aus."
    ∷ [])
sentence disk n suffix =
    parts (
      "Überschreitet eine Platte " ∷ decimal n ∷ " %" ∷ suffix ∷ ", löst das einen Alarm aus." ∷ [])
sentence patch_age n suffix = parts (
    "Ist ein Sicherheitsupdate länger als "
    ∷ decimal n
    ∷ " Tage"
    ∷ suffix
    ∷ " offen, löst das einen Alarm aus."
    ∷ [])
sentence mdm_silent n suffix = parts (
    "Meldet sich ein Telefon länger als "
    ∷ decimal n
    ∷ " Tage"
    ∷ suffix
    ∷ " nicht per MDM oder wird das Profil entfernt, löst das einen Alarm aus."
    ∷ [])
sentence mdm_passcode n suffix = "Hat ein Telefon keinen Gerätecode, löst das einen Alarm aus."
sentence mdm_identity n suffix = parts (
    "Läuft das MDM-Zertifikat eines Telefons in weniger als "
    ∷ decimal n
    ∷ " Tagen"
    ∷ suffix
    ∷ " ab, ohne erneuert zu sein, löst das einen Alarm aus."
    ∷ [])

unfoldable pub rule_sentence : RuleType → Option ℕ → String
rule_sentence type threshold =
    sentence type (or_else threshold (rule_default type)) (suffix_of threshold)

abbrev short : RuleType → ℕ → String
short offline n = parts ("Gerät offline ab " ∷ human_seconds n ∷ [])
short disk n = parts ("Disk-Belegung ab " ∷ decimal n ∷ " %" ∷ [])
short patch_age n = parts ("Sicherheitsupdates ab " ∷ decimal n ∷ " Tagen" ∷ [])
short mdm_silent n = parts ("Telefon stumm ab " ∷ decimal n ∷ " Tagen" ∷ [])
short mdm_passcode n = "Telefon ohne Gerätecode"
short mdm_identity n = parts ("MDM-Zertifikat " ∷ decimal n ∷ " Tage vor Ablauf" ∷ [])

unfoldable pub rule_short : RuleType → Option ℕ → String
rule_short type threshold = short type (or_else threshold (rule_default type))

abbrev person_label : String → Option Person → String
person_label value none = parts ("Person #" ∷ value ∷ [])
person_label value (some p) = parts ("Person: " ∷ p.name ∷ [])

abbrev scope_text : ScopeKind → String → List Person → String
scope_text every value persons = "alle Geräte"
scope_text tag value persons = parts ("Tag: " ∷ value ∷ [])
scope_text person value persons =
    person_label value (find (λ (x : Person). str_eq (decimal x.id) value) persons)

unfoldable pub scope_label : AlertRule → List Person → String
scope_label rule persons = scope_text rule.scope_kind rule.scope_value persons

-- `String(d.person_id ?? '')`
abbrev pub person_text : Option ℕ → String
person_text none = ""
person_text (some id) = decimal id

-- Whether the scope of a rule takes in a device.
abbrev pub in_scope : ScopeKind → String → Device → Bool
in_scope every value d = Bool.true
in_scope tag value d = includes d.tags value
in_scope person value d = str_eq (person_text d.person_id) value

unfoldable pub affected_devices : AlertRule → List Device → List Device
affected_devices rule devices = elim (rule.scope_kind) [
  | tag ↦ filter (in_scope tag rule.scope_value) devices
  | person ↦ filter (in_scope person rule.scope_value) devices
  | every ↦ devices
]

abbrev pub specificity : ScopeKind → ℕ
specificity every = 1
specificity tag = 2
specificity person = 3

abbrev pub type_text : RuleType → String
type_text offline = "offline"
type_text disk = "disk"
type_text patch_age = "patch_age"
type_text mdm_silent = "mdm_silent"
type_text mdm_passcode = "mdm_passcode"
type_text mdm_identity = "mdm_identity"

-- The test of the filter in `effectiveRule`.
abbrev pub is_candidate : Device → RuleType → AlertRule → Bool
is_candidate d type r =
    str_eq (type_text r.type) (type_text type) && (length (affected_devices r (d ∷ [])) == 1)

-- `SPECIFICITY[b.scope_kind] - SPECIFICITY[a.scope_kind]`
abbrev pub more_specific : AlertRule → AlertRule → Ordering
more_specific a b = compare (specificity b.scope_kind) (specificity a.scope_kind)

unfoldable pub effective_rule : List AlertRule → Option Device → RuleType → Option AlertRule
effective_rule rules none type = none
effective_rule rules (some d) type =
    get_elem? (sort more_specific (filter (is_candidate d type) rules)) 0
