-- ===== src/Audit/Tests.antt =====
-- A choice on the page of the audit log: frontend/src/pages/audit/AuditPage.tsx.
use rmm_rxf_sys_de.Base.{◌≡◌, refl, false, some, [], ◌∷◌}
use rmm_rxf_sys_de.Audit.Filters.{AuditFilters, day, patch, read_filters}
use rmm_rxf_sys_de.Audit.Laws.{choose, read_filters-chosen}

abbrev choice : AuditFilters
choice = record { range = day; security = false; category = some patch; actor = "anna" }

read_filters-chosen_example :
    read_filters (choose choice (("range", "alle") ∷ ("security", "1") ∷ [])) ≡ choice
read_filters-chosen_example =
    read_filters-chosen choice (("range", "alle") ∷ ("security", "1") ∷ []) refl
