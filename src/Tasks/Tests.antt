-- ===== src/Tasks/Tests.antt =====
-- The tasks at a small fleet: frontend/src/overviewTasks.ts.
use rmm_rxf_sys_de.Base.{ℕ, ◌≡◌, String, any, length, ◌==◌, if◌then◌else◌}
use rmm_rxf_sys_de.Base.Text.{decimal}
use rmm_rxf_sys_de.Fleet.Samples.{fleet, patch_summary}
use rmm_rxf_sys_de.Tasks.{crit, warn, info, verdict, of_tasks, ok}
use rmm_rxf_sys_de.Tasks.Build.{build_tasks}
use rmm_rxf_sys_de.Tasks.Laws.{verdict-build_tasks, is_urgent, is_due}

-- Whole units only.
abbrev whole_units : ℕ → ℕ → String
whole_units num den = decimal (Prim.Native.Nat.◌/◌ num den)

verdict_example : (verdict fleet (build_tasks whole_units fleet patch_summary 2000)).severity ≡ (
    if length fleet == 0
    then of_tasks info
    else (if any (is_urgent patch_summary) fleet
        then of_tasks crit
        else (if any (is_due 2000) fleet then of_tasks warn else ok)))
verdict_example = verdict-build_tasks whole_units fleet patch_summary 2000
