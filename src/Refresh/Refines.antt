-- ===== src/Refresh/Refines.antt =====
-- What the refresh scheduler promises, without its timers: frontend/src/hooks/useFleet.ts, lines 40
-- to 97. The specification knows whether a load runs, whether another one is wanted, whether the
-- scheduler was stopped, and how many loads there were; what each event does to it is a function.
use rmm_rxf_sys_de.Base.{
  ℕ, ◌+◌, ◌≡◌, refl, ◌∙◌, ap, Bool, true, false, not, ◌&&◌, ◌||◌, is_some, ltb, length, List, [],
  ◌∷◌, if◌then◌else◌, arith,
}
use rmm_rxf_sys_de.Refresh.{request, settle, fire, cancel}
use rmm_rxf_sys_de.Refresh.Steps.{
  World, start_world, Step, tick, ask, timeout, loaded, unmount, Reach, here, next,
}
use rmm_rxf_sys_de.Refresh.Invariant.{IsValid, start_world-IsValid, Reach-IsValid}

pub record Spec : Type 0 where
  pub running : Bool
  pub wanted : Bool
  pub stopped : Bool
  pub loads : ℕ

pub data Event : Type 0 where
  pass : Event
  wish : Bool → Event
  grant finish stop : Event

-- A load begins, with which every wish is granted.
abbrev begun : Spec → Spec
begun a = record a { running = true; wanted = false; loads = a.loads + 1 }

-- A wish at once is granted at once, if no load runs; the others wait to be granted. While a load
-- runs a wish is not granted and stays. A stopped scheduler does nothing.
unfoldable pub perform : Event → Spec → Spec
perform pass a = a
perform (wish at_once) a =
    if a.stopped
    then a
    else (if at_once && not a.running then begun a else record a { wanted = true })
perform grant a = if a.stopped || a.running then a else begun a
perform finish a = record a { running = false }
perform stop a = record a { wanted = false; stopped = true }

abbrev pub idle : Spec
idle = record { running = false; wanted = false; stopped = false; loads = 0 }

-- The latest event first.
unfoldable pub perform_all : List Event → Spec
unfolding perform
perform_all [] = idle
perform_all (e ∷ es) = perform e (perform_all es)

-- What the specification sees of the scheduler in its surroundings.
abbrev pub view : World → Spec
view w = record {
  running = ltb 0 w.running;
  wanted = not w.sched.cancelled && (w.sched.queued || is_some w.sched.timer);
  stopped = w.sched.cancelled;
  loads = length w.starts;
}

abbrev Agrees : Spec → Spec → Type 0
Agrees a b =
    (a.running ≡ b.running) × (a.wanted ≡ b.wanted) × (a.stopped ≡ b.stopped) × (a.loads ≡ b.loads)

Agrees-eq : (a b : Spec) → Agrees a b → a ≡ b
Agrees-eq a b (r, w, s, l) = λ i. record { running = r i; wanted = w i; stopped = s i; loads = l i }

module _ {gap : ℕ} where
  abbrev event : {w v : World} → Step gap w v → Event
  event (tick w n) = pass
  event (ask w immediate) = wish immediate
  event (timeout w t due late) = grant
  event (loaded w busy) = finish
  event (unmount w) = stop

  unfoldable pub events : {w v : World} → Reach gap w v → List Event
  events here = []
  events (next r s) = event s ∷ events r

  Step-Agrees :
      {w v : World} (s : Step gap w v)
      → IsValid gap w
      → Agrees (view v) (perform (event s) (view w))
  unfolding perform request settle fire cancel
  Step-Agrees (tick w n) h = (refl, refl, refl, refl)
  Step-Agrees (ask w immediate) h = ground (arith, h.one_load, h.queue_waits)
  Step-Agrees (timeout w t due late) h = ground (arith, h.one_load, h.queue_waits, h.quiet, due)
  Step-Agrees (loaded w busy) h = ground (arith, h.one_load, h.queue_waits)
  Step-Agrees (unmount w) h = ground arith

-- The scheduler refines the specification in lockstep: after every run, however long and in whatever
-- order, what the specification sees of it is what the events of this run, one after the other, do
-- to the specification, the number of loads included.
pub scheduler_refines :
    (gap : ℕ) (w : World) (r : Reach gap start_world w) → view w ≡ perform_all (events r)
unfolding perform_all events
scheduler_refines gap w here = refl
scheduler_refines gap w (next r s) =
    Agrees-eq _ _ (Step-Agrees s (Reach-IsValid (start_world-IsValid gap) r))
    ∙ ap (perform (event s)) (scheduler_refines gap _ r)
