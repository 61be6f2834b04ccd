-- ===== src/Address/Tests.antt =====
-- A person who is chosen on a filtered list: frontend/src/pages/devices/DevicesPage.tsx.
use rmm_rxf_sys_de.Base.{◌≡◌, some, [], ◌∷◌, arith}
use rmm_rxf_sys_de.Base.Text.{decimal}
use rmm_rxf_sys_de.Address.{set_param, person_filter, person_filter-chosen}

person_filter_example :
    person_filter (
      set_param (("person", some (decimal 12)) ∷ []) (("filter", "offline") ∷ ("person", "3") ∷ []))
    ≡ some 12
person_filter_example =
    person_filter-chosen 12 (("filter", "offline") ∷ ("person", "3") ∷ []) (omega arith)
