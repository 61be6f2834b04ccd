-- ===== src/Persons/Laws.antt =====
-- The persons page: frontend/src/pages/persons/personsMeta.ts.
use mathlib.Core.List.{Perm, append-nil, append_assoc}
use rmm_rxf_sys_de.Base.{
  any-or, any-eq, any-filter, any-swap, sym, true, false, is_some, ℕ, ◌≡◌, refl, ◌∙◌, ap, Bool, not,
  ◌&&◌, ◌||◌, ltb, ◌==◌, Option, none, some, List, [], ◌∷◌, ◌++◌, map, filter, any, any-count,
  length, or_else, arith, if◌then◌else◌,
}
use rmm_rxf_sys_de.Base.Compare.{on-IsOrder}
use rmm_rxf_sys_de.Base.Sort.{sort, any-sort, IsSorted, sort-perm, sort-IsSorted}
use rmm_rxf_sys_de.Base.Text.{Collator}
use rmm_rxf_sys_de.Fleet.Types.{Device, Alert}
use rmm_rxf_sys_de.Fleet.People.{Person}
use rmm_rxf_sys_de.Fleet.Status.{DeviceStatusKind}
use rmm_rxf_sys_de.Persons.Facts.{
  person_verdict, needs_attention, is_kind, open_alerts_on, is_open_on, newest_first, same_id,
}
use rmm_rxf_sys_de.Persons.Rows.{
  PersonRow, ByPerson, get, push, group, person_rows, by_name, place, row_of,
}

-- The devices of a person, in the order of the fleet.
abbrev pub own_devices : List Device → Person → List Device
own_devices ds p = filter (λ (d : Device). same_id d.person_id p.id) ds

abbrev pub own_row : List Device → List Alert → Person → PersonRow
own_row ds alerts p =
    let own = own_devices ds p in
    record {
      person = p;
      devices = own;
      verdict = person_verdict own (length (open_alerts_on own alerts));
    }

get-push :
    (id j : ℕ) (d : Device) (m : ByPerson)
    → or_else (get id (push j d m)) []
      ≡ (if j == id then or_else (get id m) [] ++ d ∷ [] else or_else (get id m) [])
unfolding get push
get-push id j d [] = ground arith
get-push id j d ((k, ds) ∷ m) = ground (arith, get-push id j d m)

get-place :
    (id : ℕ) (d : Device) (o : Option ℕ) (m : ByPerson)
    → or_else (get id (place d o m)) []
      ≡ or_else (get id m) [] ++ (if same_id o id then d ∷ [] else [])
get-place id d none m = sym (append-nil (or_else (get id m) []))
get-place id d (some j) m = ground (arith, get-push id j d m, append-nil (or_else (get id m) []))

get-group :
    (id : ℕ) (m : ByPerson) (ds : List Device)
    → or_else (get id (group m ds)) []
      ≡ or_else (get id m) [] ++ filter (λ (d : Device). same_id d.person_id id) ds
unfolding group
get-group id m [] = sym (append-nil (or_else (get id m) []))
get-group id m (d ∷ ds) =
    let own = if same_id d.person_id id then d ∷ [] else [] in
    let rest = filter (λ (d : Device). same_id d.person_id id) ds in
    get-group id (place d d.person_id m) ds
    ∙ rw (get-place id d d.person_id m)
        (append_assoc (or_else (get id m) []) own rest ∙ ap (λ l. or_else (get id m) [] ++ l) one)
  where
    one :
        (if same_id d.person_id id then d ∷ [] else [])
          ++ filter (λ (d : Device). same_id d.person_id id) ds
        ≡ filter (λ (d : Device). same_id d.person_id id) (d ∷ ds)
    one = ground arith

get-own : (ds : List Device) (p : Person) → or_else (get p.id (group [] ds)) [] ≡ own_devices ds p
unfolding get
get-own ds p = get-group p.id [] ds

rows-eq :
    (ds : List Device) (alerts : List Alert) (persons : List Person)
    → map (row_of (group [] ds) alerts) persons ≡ map (own_row ds alerts) persons
rows-eq ds alerts [] = refl
rows-eq ds alerts (p ∷ persons) =
    rw (get-own ds p) (ap (λ l. own_row ds alerts p ∷ l) (rows-eq ds alerts persons))

-- The list shows every person once, each with exactly their devices in the order of the fleet and
-- the verdict on these, in the order of the names.
pub person_rows_lem :
    (collator : Collator) (persons : List Person) (ds : List Device) (alerts : List Alert)
    → Perm (person_rows collator persons ds alerts) (map (own_row ds alerts) persons)
      × IsSorted (by_name collator) (person_rows collator persons ds alerts)
unfolding person_rows
person_rows_lem collator persons ds alerts = rw (rows-eq ds alerts persons) (
  sort-perm (by_name collator) (map (own_row ds alerts) persons),
  sort-IsSorted (on-IsOrder (λ (r : PersonRow). r.person.name) collator.order)
      (map (own_row ds alerts) persons),
)

abbrev concerns : Alert → Device → Bool
concerns a d = not (is_some a.resolved_at) && (d.id == a.device_id)

open-any : (a : Alert) (ds : List Device) → (is_open_on ds a && true) ≡ any (concerns a) ds
open-any a [] = ground arith
open-any a (d ∷ ds) = ground (arith, open-any a ds)

nonempty-any : {A : Type 0} (xs : List A) → ltb 0 (length xs) ≡ any (λ x. true) xs
nonempty-any [] = refl
nonempty-any (x ∷ xs) = ground arith

any-length_zero : (p : Device → Bool) (ds : List Device) → length ds ≡ 0 → any p ds ≡ false
any-length_zero p [] h = refl
any-length_zero p (d ∷ ds) h = ground arith

abbrev alerting : List Alert → Device → Bool
alerting alerts d = any (λ a. concerns a d) alerts

-- A device that is critical, has a warning, or has an open alert.
abbrev pub is_concerning : List Alert → Device → Bool
is_concerning alerts d =
    (is_kind DeviceStatusKind.danger d || is_kind DeviceStatusKind.warn d) || alerting alerts d

count-alerts :
    (ds : List Device) (alerts : List Alert)
    → ltb 0 (length (open_alerts_on ds alerts)) ≡ any (alerting alerts) ds
unfolding open_alerts_on
count-alerts ds alerts =
    nonempty-any (sort newest_first (filter (is_open_on ds) alerts))
    ∙ any-sort newest_first (λ a. true) (filter (is_open_on ds) alerts)
    ∙ any-filter (λ a. true) (is_open_on ds) alerts
    ∙ any-eq (λ a. is_open_on ds a && true) (λ a. any (concerns a) ds) (λ a. open-any a ds) alerts
    ∙ any-swap concerns alerts ds

-- A person wants a look exactly if one of their devices is critical, has a warning or has an alert
-- that is not resolved.
pub needs_attention-person_verdict :
    (ds : List Device) (alerts : List Alert)
    → needs_attention (person_verdict ds (length (open_alerts_on ds alerts)))
      ≡ any (is_concerning alerts) ds
unfolding needs_attention person_verdict
needs_attention-person_verdict ds alerts = ground (
  arith,
  any-length_zero (is_concerning alerts) ds,
  count-alerts ds alerts,
  any-count (is_kind DeviceStatusKind.danger) ds,
  any-count (is_kind DeviceStatusKind.warn) ds,
  any-or (is_kind DeviceStatusKind.danger) (is_kind DeviceStatusKind.warn) ds,
  any-or (λ d. is_kind DeviceStatusKind.danger d || is_kind DeviceStatusKind.warn d)
      (alerting alerts) ds,
)
