-- ===== src/Track/Tests.antt =====
-- A restart of two computers, followed to its end: frontend/src/ui/toast.tsx.
use rmm_rxf_sys_de.Base.{ℕ, ◌+◌, ◌≡◌, ◌==◌, length, ◌*◌, ◌≤◌, refl, none, [], ◌∷◌, All, arith}
use rmm_rxf_sys_de.Fleet.Jobs.{Job, shell}
use rmm_rxf_sys_de.JobStream.{JobStatus, queued, failed}
use rmm_rxf_sys_de.Track.{Follower, poll_ms, track_job, on_timeout, on_answer}
use rmm_rxf_sys_de.Track.Round.{Entry, Round, track_round, on_round, on_round_answer}
use rmm_rxf_sys_de.Track.Steps.{World, loaded, passes, starts, fires, answers, Reach, here, next}
use rmm_rxf_sys_de.Track.Owned.{Own, Shown, ShownRound, job_results_private}
use rmm_rxf_sys_de.Track.Ledger.{
  held, failures, ended_by, Said, begins as starts_new, fires as asks, answers as replies,
}
use rmm_rxf_sys_de.Track.Accounts.{rounds_account}
use rmm_rxf_sys_de.Track.Polls.{begins, passes as passes_by, fires as fires_once, polls_bounded}

abbrev job : ℕ → JobStatus → Job
job id status = record {
  id = id;
  device_id = id;
  kind = shell;
  command = "reboot";
  shell_name = "bash";
  script_id = none;
  script_name = "";
  status = status;
  exit_code = none;
  created_by = "admin";
  created_at = 1;
  started_at = none;
  finished_at = none;
  output = none;
}

abbrev entry : ℕ → Entry
entry id = record { job = job id queued; device_name = "nas" }

abbrev one_started : World
one_started = record loaded {
  singles = track_job 0 loaded.session (job 1 queued) "nas" "Neustart" ∷ [];
}

Reach-one_started : Reach loaded one_started
Reach-one_started = next here (starts loaded (job 1 queued) "nas" "Neustart")

abbrev two_seconds : World
two_seconds = record one_started { clock = 2000 }

abbrev follower : Follower
follower = track_job 0 loaded.session (job 1 queued) "nas" "Neustart"

abbrev asked : World
asked = record two_seconds { singles = on_timeout loaded.session follower ∷ [] }

Reach-asked : Reach loaded asked
unfolding track_job
Reach-asked =
    next (next Reach-one_started (passes one_started 2000))
      (fires two_seconds [] follower [] 2000 refl refl (omega arith))

abbrev answered : World
answered = record asked {
  session = (on_answer 2000 loaded.session (job 1 failed) (on_timeout loaded.session follower)).0;
  singles =
      (on_answer 2000 loaded.session (job 1 failed) (on_timeout loaded.session follower)).1 ∷ [];
}

Reach-answered : Reach loaded answered
unfolding track_job on_timeout
Reach-answered =
    next Reach-asked
      (answers asked [] (on_timeout loaded.session follower) [] (job 1 failed) refl refl refl)

job_results_private_example :
    All (Own answered) answered.session.results
    × All (Shown answered.session.generation) answered.singles
    × All (ShownRound answered.session.generation) answered.rounds
job_results_private_example = job_results_private answered Reach-answered

abbrev round_started : Round
round_started = track_round 0 loaded.session (entry 1 ∷ entry 2 ∷ []) "Neustart"

abbrev round_asked : Round
round_asked = on_round loaded.session round_started

-- The first of two jobs has failed.
abbrev round_answered : Round
round_answered =
    (on_round_answer 3000 loaded.session (job 1 failed) [] (entry 1) (entry 2 ∷ []) round_asked).1

rounds_account_example :
    (length round_answered.out ≤ 6)
    × (held (λ id. id == 1) (ended_by (job 1 failed) (entry 1)) round_answered ≡ 1)
    × (round_answered.failed ≡ failures (ended_by (job 1 failed) (entry 1)))
    × Said round_answered.toast
        (entry 1 ∷ entry 2 ∷ [])
        (ended_by (job 1 failed) (entry 1))
        round_answered
unfolding track_round on_round
rounds_account_example =
    rounds_account 0 (entry 1 ∷ entry 2 ∷ []) (ended_by (job 1 failed) (entry 1)) round_answered
      (λ id. id == 1)
      (replies 3000 loaded.session (job 1 failed) [] (entry 1) (entry 2 ∷ [])
        (asks loaded.session 3000 (starts_new 0 loaded.session "Neustart" refl) refl refl) refl refl
        refl refl)

polls_bounded_example :
    (1 ≤ 3600) × ((on_timeout loaded.session follower).started + poll_ms * 1 ≤ 2000)
unfolding track_job
polls_bounded_example =
    polls_bounded 0 loaded.session (job 1 queued) "nas" "Neustart"
      (fires_once (passes_by begins 2000) loaded.session 2000 refl (omega arith))
