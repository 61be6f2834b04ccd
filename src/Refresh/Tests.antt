-- ===== src/Refresh/Tests.antt =====
-- The promises of the refresh scheduler in a run: frontend/src/hooks/useFleet.ts.
use rmm_rxf_sys_de.Base.{ℕ, ◌+◌, ◌≤◌, ◌<◌, ◌≡◌, refl, ◌⊎◌, true, false, [], ◌∷◌, arith}
use rmm_rxf_sys_de.Refresh.{request, settle, fire, cancel}
use rmm_rxf_sys_de.Refresh.Steps.{World, start_world, after, tick, ask, loaded, Reach, here, next}
use rmm_rxf_sys_de.Refresh.Invariant.{spaced}
use rmm_rxf_sys_de.Refresh.Refines.{view, perform_all, events, scheduler_refines}
use rmm_rxf_sys_de.Refresh.Laws.{
  scheduler_throttles, cancel_stops, request_not_lost, timeout_serves, pending,
}

abbrev gap : ℕ
gap = 1000

-- A first load runs, and a request at once is queued behind it.
abbrev loading : World
loading = after true start_world (request gap 0 true start_world.sched)

abbrev queued : World
queued = after true loading (request gap 0 true loading.sched)

queued-Reach : Reach gap start_world queued
queued-Reach = next (next here (ask start_world true)) (ask loading true)

-- The load settles, and the follow-up waits for the gap.
abbrev waiting : World
waiting = after false (record queued { running = 0 }) (settle gap 0 queued.sched)

waiting-Reach : Reach gap start_world waiting
unfolding request settle
waiting-Reach = next queued-Reach (loaded queued (omega arith))

scheduler_throttles_example : (1 ≤ 1) × (spaced gap (record { at = 0; forced = true } ∷ []) ≡ true)
unfolding request settle
scheduler_throttles_example = scheduler_throttles gap queued queued-Reach

cancel_stops_example : queued.starts ≡ queued.starts
unfolding request cancel
cancel_stops_example =
    cancel_stops gap queued (record queued { sched = cancel queued.sched; now = 5 })
      (next here (tick (record queued { sched = cancel queued.sched }) 5))

request_not_lost_example : (0 < 1) ⊎ (pending loading.sched ≡ true)
unfolding request
request_not_lost_example = request_not_lost gap start_world loading true here refl

timeout_serves_example :
    (1000 ≤ waiting.now + gap)
    × ((after false (record waiting { now = 1000 }) (fire 1000 waiting.sched)).starts
        ≡ record { at = 1000; forced = false } ∷ waiting.starts)
    × ((fire 1000 waiting.sched).0.in_flight ≡ true)
    × ((fire 1000 waiting.sched).0.queued ≡ false)
unfolding request settle
timeout_serves_example = timeout_serves gap waiting 1000 1000 waiting-Reach refl (omega arith)

scheduler_refines_example : view queued ≡ perform_all (events queued-Reach)
scheduler_refines_example = scheduler_refines gap queued queued-Reach
