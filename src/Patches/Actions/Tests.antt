-- ===== src/Patches/Actions/Tests.antt =====
-- An installation on a small fleet: frontend/src/pages/patches/PatchesPage.tsx.
use rmm_rxf_sys_de.Base.{
  ◌≤◌, ◌≡◌, refl, true, false, ◌&&◌, ltb, is_some, none, [], ◌∷◌, ◌++◌, length, All,
}
use rmm_rxf_sys_de.Base.Text.{decimal}
use rmm_rxf_sys_de.Bulk.Run.{resolved, start, settle}
use rmm_rxf_sys_de.Bulk.Selection.{partition, reachable}
use rmm_rxf_sys_de.Fleet.Jobs.{Job, patch_install}
use rmm_rxf_sys_de.Fleet.Samples.{fleet, full_disk, patch_summary}
use rmm_rxf_sys_de.Fleet.Status.{is_agent}
use rmm_rxf_sys_de.JobStream.{JobStatus}
use rmm_rxf_sys_de.Patches.Orders.{install, rules, order, Round}
use rmm_rxf_sys_de.Patches.Actions.{on_over}
use rmm_rxf_sys_de.Patches.Actions.{Desk, opened, begin, press, is_disabled, on_answer, on_settled}
use rmm_rxf_sys_de.Patches.Actions.Steps.{Reach, at_start, after, presses, answers, replies, ends}
use rmm_rxf_sys_de.Patches.Actions.Rounds.{Wanted, one_round}
use rmm_rxf_sys_de.Patches.Actions.Followed.{concat, to_follow, all_brought, jobs_followed}
use rmm_rxf_sys_de.Patches.Filter.{security_of}

abbrev job : Job
job = record {
  id = 7;
  device_id = 1;
  kind = patch_install;
  command = "";
  shell_name = "";
  script_id = none;
  script_name = "";
  status = JobStatus.queued;
  exit_code = none;
  created_by = "anna";
  created_at = 1000;
  started_at = none;
  finished_at = none;
  output = none;
}

abbrev asked : Desk
asked = press install fleet patch_summary opened

abbrev confirmed : Desk
confirmed = on_answer true (order install fleet patch_summary) asked

abbrev round : Round
round = record {
  order = order install fleet patch_summary;
  bulk = start 4 (order install fleet patch_summary).plan.targets;
  started = [];
}

abbrev replied : Desk
replied = on_settled [] round [] [] full_disk [] job resolved confirmed

abbrev finished : Round
finished = record round {
  bulk = settle [] full_disk [] resolved round.bulk;
  started = record { job = job; device_name = "pc-anna" } ∷ [];
}

confirmed_reach : Reach decimal opened confirmed
unfolding press order partition rules reachable is_agent security_of is_disabled on_answer
confirmed_reach =
    after (after at_start (presses opened install fleet patch_summary refl))
      (answers asked true (order install fleet patch_summary) refl)

replied_reach : Reach decimal opened replied
unfolding press order partition rules reachable is_agent security_of is_disabled on_answer begin
    start
replied_reach =
    after confirmed_reach (replies confirmed [] round [] [] full_disk [] job resolved refl refl)

one_round_example :
    (length confirmed.rounds ≤ 1)
    × (confirmed.busy ≡ ltb 0 (length confirmed.rounds))
    × ((is_some confirmed.asking && confirmed.busy) ≡ false)
    × All (λ (r : Round). All (Wanted r.order) r.bulk.running) confirmed.rounds
one_round_example = one_round decimal confirmed confirmed_reach

abbrev over : Desk
over = on_over decimal [] finished [] replied

over_reach : Reach decimal opened over
unfolding on_settled press order partition rules reachable is_agent security_of is_disabled
    on_answer begin start settle
over_reach = after replied_reach (ends replied [] finished [] refl refl)

-- The round is over, and its one job is followed.
jobs_followed_example : concat over.followed ++ to_follow over.rounds ≡ all_brought over_reach
jobs_followed_example = jobs_followed decimal over over_reach
