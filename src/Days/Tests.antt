-- ===== src/Days/Tests.antt =====
-- Grouping at four events: frontend/src/pages/audit/auditLog.ts.
use rmm_rxf_sys_de.Base.{ℕ, ◌≡◌, true, String, List, [], ◌∷◌, all, leb, if◌then◌else◌}
use rmm_rxf_sys_de.Days.{group_by_day}
use rmm_rxf_sys_de.Days.Laws.{flat, is_group, is_split, group_by_day_lem}

abbrev day : ℕ → String
day ts = if leb 100 ts then "later" else "earlier"

abbrev times : List ℕ
times = 300 ∷ 200 ∷ 50 ∷ 101 ∷ []

group_by_day_example :
    (flat (group_by_day (λ n. n) day times) ≡ times)
    × (all (is_group (λ n. n) day) (group_by_day (λ n. n) day times) ≡ true)
    × (is_split (group_by_day (λ n. n) day times) ≡ true)
group_by_day_example = group_by_day_lem (λ n. n) day times
