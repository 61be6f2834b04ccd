-- ===== src/Persons/Tests.antt =====
-- The persons of a small fleet: frontend/src/pages/persons/personsMeta.ts.
use mathlib.Core.List.{Perm}
use rmm_rxf_sys_de.Base.{ℕ, some, List, [], ◌∷◌, map, String}
use rmm_rxf_sys_de.Base.Sort.{IsSorted}
use rmm_rxf_sys_de.Fleet.Types.{Device, Alert}
use rmm_rxf_sys_de.Fleet.People.{Person}
use rmm_rxf_sys_de.Fleet.Samples.{by_size, full_disk, server, laptop, alert}
use rmm_rxf_sys_de.Persons.Rows.{person_rows, by_name}
use rmm_rxf_sys_de.Persons.Laws.{own_row, person_rows_lem}

abbrev owned_by : ℕ → Device → Device
owned_by id d = record d { person_id = some id }

abbrev ds : List Device
ds = owned_by 1 full_disk ∷ server ∷ owned_by 1 laptop ∷ []

abbrev named : ℕ → String → Person
named id name = record {
  id = id;
  name = name;
  email = "";
  phone = "";
  notes = "";
  created_at = 0;
  device_count = 0;
}

abbrev persons : List Person
persons = named 1 "Berta" ∷ named 2 "Anna" ∷ []

abbrev alerts : List Alert
alerts = alert 7 3 "offline" 100 ∷ []

person_rows_example :
    Perm (person_rows by_size persons ds alerts) (map (own_row ds alerts) persons)
    × IsSorted (by_name by_size) (person_rows by_size persons ds alerts)
person_rows_example = person_rows_lem by_size persons ds alerts
