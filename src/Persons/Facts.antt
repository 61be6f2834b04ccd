-- ===== src/Persons/Facts.antt =====
-- The state of one person's devices: frontend/src/pages/persons/personsMeta.ts, lines 8 to 21, 97 to
-- 154 and 201 to 245.
use rmm_rxf_sys_de.Base.{
  ℕ, ◌+◌, ◌-◌, Bool, not, ◌&&◌, ◌||◌, String, Option, none, some, List, [], ◌∷◌, ◌==◌, leb, ltb,
  any, count, filter, find, length, take, is_some, compare, str_eq, if◌then◌else◌,
}
use rmm_rxf_sys_de.Base.Sort.{sort}
use rmm_rxf_sys_de.Base.Text.{decimal, parts, join, plural}
use rmm_rxf_sys_de.Fleet.Types.{Device, Alert, PatchSummary, PatchCounts, lookup}
use rmm_rxf_sys_de.Fleet.People.{Account, AuditEvent, Role, admin, techniker, viewer}
use rmm_rxf_sys_de.Fleet.Status.{DeviceStatusKind, device_status_kind}

-- `names.slice(0, -1)` and the last name
abbrev but_last : String → List String → List String
but_last t [] = []
but_last t (u ∷ ts) = t ∷ but_last u ts

abbrev last_of : String → List String → String
last_of t [] = t
last_of t (u ∷ ts) = last_of u ts

unfoldable pub name_list : List String → ℕ → String
name_list [] most = ""
name_list (t ∷ []) most = t
name_list (t ∷ u ∷ ts) most =
    if leb (length (t ∷ u ∷ ts)) most
    then parts (join ", " (but_last t (u ∷ ts)) ∷ " und " ∷ last_of t (u ∷ ts) ∷ [])
    else parts (
        join ", " (take most (t ∷ u ∷ ts))
        ∷ " und "
        ∷ decimal (length (t ∷ u ∷ ts) - most)
        ∷ " weitere"
        ∷ [])

pub record PersonFacts : Type 0 where
  pub devices : ℕ
  pub online : ℕ
  pub open_alerts : ℕ
  pub pending : ℕ
  pub security : ℕ

-- `ids.has(id)`, of the set of the devices' ids
abbrev pub has_id : ℕ → List Device → Bool
has_id id ds = any (λ (d : Device). d.id == id) ds

abbrev pub is_open_on : List Device → Alert → Bool
is_open_on ds a = not (is_some a.resolved_at) && has_id a.device_id ds

abbrev pub newest_first : Alert → Alert → Prim.Native.Nat.Ordering
newest_first a b = compare b.fired_at a.fired_at

unfoldable pub open_alerts_on : List Device → List Alert → List Alert
open_alerts_on ds alerts = sort newest_first (filter (is_open_on ds) alerts)

abbrev add_counts : Option PatchCounts → ℕ × ℕ → ℕ × ℕ
add_counts none sums = sums
add_counts (some s) (pending, security) = (pending + s.pending, security + s.security)

-- The loop over the devices, with the two sums so far.
unfoldable pub sum_counts : PatchSummary → ℕ × ℕ → List Device → ℕ × ℕ
sum_counts summary sums [] = sums
sum_counts summary sums (d ∷ ds) = sum_counts summary (add_counts (lookup d.id summary) sums) ds

unfoldable pub person_facts : List Device → List Alert → PatchSummary → PersonFacts
person_facts ds alerts summary =
    let sums = sum_counts summary (0, 0) ds in
    record {
      devices = length ds;
      online = count (λ (d : Device). d.online) ds;
      open_alerts = length (open_alerts_on ds alerts);
      pending = sums.0;
      security = sums.1;
    }

-- The kinds that a verdict can have.
pub data StatusKind : Type 0 where
  ok warn danger off neutral : StatusKind

pub record Verdict : Type 0 where
  pub kind : StatusKind
  pub label : String

abbrev rank : DeviceStatusKind → ℕ
rank DeviceStatusKind.danger = 4
rank DeviceStatusKind.warn = 3
rank DeviceStatusKind.off = 2
rank DeviceStatusKind.ok = 1
rank DeviceStatusKind.noagent = 0

abbrev pub is_kind : DeviceStatusKind → Device → Bool
is_kind k d = rank (device_status_kind d) == rank k

-- `count(k)`: how many devices are of a kind
abbrev pub count_kind : DeviceStatusKind → List Device → ℕ
count_kind k ds = count (is_kind k) ds

abbrev pub devs : ℕ → String
devs n = plural n "Gerät" "Geräte"

unfoldable pub person_verdict : List Device → ℕ → Verdict
person_verdict ds open_alerts =
    if length ds == 0
    then record { kind = neutral; label = "Kein Gerät" }
    else (if ltb 0 (count_kind DeviceStatusKind.danger ds)
        then record {
          kind = danger;
          label = parts (devs (count_kind DeviceStatusKind.danger ds) ∷ " kritisch" ∷ []);
        }
        else (if ltb 0 open_alerts
            then record { kind = warn; label = plural open_alerts "offener Alarm" "offene Alarme" }
            else (if ltb 0 (count_kind DeviceStatusKind.warn ds)
                then record {
                  kind = warn;
                  label = parts (devs (count_kind DeviceStatusKind.warn ds) ∷ " mit Warnung" ∷ []);
                }
                else (if ltb 0 (count_kind DeviceStatusKind.off ds)
                    then record {
                      kind = off;
                      label = parts (devs (count_kind DeviceStatusKind.off ds) ∷ " offline" ∷ []);
                    }
                    else (if count_kind DeviceStatusKind.noagent ds == length ds
                        then record { kind = neutral; label = "Nur Geräte ohne Agent" }
                        else record { kind = ok; label = "Alles in Ordnung" })))))

abbrev alarming : StatusKind → Bool
alarming danger = Bool.true
alarming warn = Bool.true
alarming _ = Bool.false

unfoldable pub needs_attention : Verdict → Bool
needs_attention v = alarming v.kind

abbrev pub same_id : Option ℕ → ℕ → Bool
same_id none id = Bool.false
same_id (some j) id = j == id

unfoldable pub account_for : Option (List Account) → ℕ → Option Account
account_for none person_id = none
account_for (some accounts) person_id =
    find (λ (a : Account). same_id a.person_id person_id) accounts

unfoldable pub accounts_of : List Account → ℕ → List Account
accounts_of accounts person_id = filter (λ (a : Account). same_id a.person_id person_id) accounts

abbrev did_it : Option Account → AuditEvent → Bool
did_it none e = Bool.false
did_it (some a) e = str_eq e.actor a.username

abbrev happened_on : List Device → Option ℕ → Bool
happened_on ds none = Bool.false
happened_on ds (some id) = has_id id ds

abbrev pub belongs : Option Account → List Device → AuditEvent → Bool
belongs account ds e = did_it account e || happened_on ds e.device_id

unfoldable pub person_activity :
    List AuditEvent → Option Account → List Device → ℕ → List AuditEvent
person_activity events account ds limit = take limit (filter (belongs account ds) events)

pub data AccountFate : Type 0 where
  deleted unlinked : AccountFate

abbrev fate_of : Role → AccountFate
fate_of viewer = deleted
fate_of admin = unlinked
fate_of techniker = unlinked

unfoldable pub account_fate : Option Account → Option AccountFate
account_fate none = none
account_fate (some a) = some (fate_of a.role)

pub record Draft : Type 0 where
  pub id : Option ℕ
  pub name : String
  pub email : String
  pub phone : String
  pub notes : String

abbrev pub empty_draft : Draft
empty_draft = record { id = none; name = ""; email = ""; phone = ""; notes = "" }

pub record PersonBody : Type 0 where
  pub name : String
  pub email : String
  pub phone : String
  pub notes : String

-- `trim` stands for the method of the texts.
unfoldable pub draft_body : (trim : String → String) → Draft → PersonBody
draft_body trim d = record {
  name = trim d.name;
  email = trim d.email;
  phone = trim d.phone;
  notes = trim d.notes;
}
