-- ===== src/Persons/Rows.antt =====
-- The list of persons: frontend/src/pages/persons/personsMeta.ts, lines 158 to 197.
use rmm_rxf_sys_de.Base.{
  ℕ, Bool, true, not, ◌&&◌, String, Option, none, some, List, [], ◌∷◌, ◌++◌, map, ◌==◌, ltb, length,
  str_eq, or_else, if◌then◌else◌,
}
use rmm_rxf_sys_de.Base.Search.{contains}
use rmm_rxf_sys_de.Base.Sort.{sort}
use rmm_rxf_sys_de.Base.Text.{join, Collator}
use rmm_rxf_sys_de.Fleet.Types.{Device, Alert}
use rmm_rxf_sys_de.Fleet.People.{Person}
use rmm_rxf_sys_de.Persons.Facts.{Verdict, person_verdict, open_alerts_on, needs_attention}

pub data PersonFilter : Type 0 where
  alle befund ohne : PersonFilter

-- `isPersonFilter(v)`, with the filter that it is
unfoldable pub person_filter : Option String → Option PersonFilter
person_filter none = none
person_filter (some v) =
    if str_eq v "alle"
    then some alle
    else (if str_eq v "befund" then some befund else (if str_eq v "ohne" then some ohne else none))

pub record PersonRow : Type 0 where
  pub person : Person
  pub devices : List Device
  pub verdict : Verdict

-- `new Map<number, Device[]>()`: each key once.
abbrev pub ByPerson : Type 0
ByPerson = List (ℕ × List Device)

unfoldable pub get : ℕ → ByPerson → Option (List Device)
get id [] = none
get id ((j, ds) ∷ m) = if j == id then some ds else get id m

-- `list.push(d)` of the list under the key, which is set to a new one if there is none.
unfoldable pub push : ℕ → Device → ByPerson → ByPerson
push id d [] = (id, d ∷ []) ∷ []
push id d ((j, ds) ∷ m) =
    let rest = push id d m in if j == id then (j, ds ++ d ∷ []) ∷ m else (j, ds) ∷ rest

-- One round of the loop.
abbrev pub place : Device → Option ℕ → ByPerson → ByPerson
place d none m = m
place d (some id) m = push id d m

unfoldable pub group : ByPerson → List Device → ByPerson
group m [] = m
group m (d ∷ ds) = group (place d d.person_id m) ds

abbrev pub row_of : ByPerson → List Alert → Person → PersonRow
row_of m alerts person =
    let own = or_else (get person.id m) [] in
    record {
      person = person;
      devices = own;
      verdict = person_verdict own (length (open_alerts_on own alerts));
    }

abbrev pub by_name : Collator → PersonRow → PersonRow → Prim.Native.Nat.Ordering
by_name collator a b = collator.compare a.person.name b.person.name

-- The collator stands for `localeCompare` with the German locale.
unfoldable pub person_rows : Collator → List Person → List Device → List Alert → List PersonRow
person_rows collator persons ds alerts =
    sort (by_name collator) (map (row_of (group [] ds) alerts) persons)

abbrev kept_by : PersonFilter → PersonRow → Bool
kept_by alle row = true
kept_by befund row = needs_attention row.verdict
kept_by ohne row = not (ltb 0 (length row.devices))

abbrev hay : PersonRow → String
hay row =
    let p = row.person in
    join " " (p.name ∷ p.email ∷ p.phone ∷ p.notes ∷ map (λ (d : Device). d.hostname) row.devices)

-- `trim` and `lower` stand for `trim` and `toLowerCase`.
unfoldable pub matches_person :
    (trim lower : String → String) → PersonRow → String → PersonFilter → Bool
matches_person trim lower row q f =
    let query = lower (trim q) in
    kept_by f row && (if str_eq query "" then true else contains (lower (hay row)) query)
