-- ===== src/Refresh/Steps.antt =====
-- The scheduler in its surroundings, as a step relation: time passes, somebody asks for a load, the
-- timeout fires (never before it is due), a load settles, the hook is unmounted.
use rmm_rxf_sys_de.Base.{
  ℕ, ◌+◌, ◌-◌, ◌≤◌, ◌<◌, ◌≡◌, Bool, false, some, List, [], ◌∷◌, if◌then◌else◌,
}
use rmm_rxf_sys_de.Refresh.{Scheduler, create, request, settle, fire, cancel}

-- A call of `load`, and whether a request with `immediate` made it at once.
pub record Start : Type 0 where
  pub at : ℕ
  pub forced : Bool

pub record World : Type 0 where
  pub now : ℕ
  pub sched : Scheduler
  -- Loads that were started and have not settled.
  pub running : ℕ
  -- All calls of `load`, the latest first.
  pub starts : List Start

abbrev pub start_world : World
start_world = record { now = 0; sched = create; running = 0; starts = [] }

abbrev pub after : Bool → World → Scheduler × Bool → World
after forced w (s, started) = record w {
  sched = s;
  running = if started then w.running + 1 else w.running;
  starts = if started then record { at = w.now; forced = forced } ∷ w.starts else w.starts;
}

pub data Step (gap : ℕ) : World → World → Type 0 where
  tick : (w : World) (n : ℕ) → Step gap w (record w { now = w.now + n })
  ask :
      (w : World) (immediate : Bool)
      → Step gap w (after immediate w (request gap w.now immediate w.sched))
  timeout :
      (w : World) (t : ℕ)
      → w.sched.timer ≡ some t
      → t ≤ w.now
      → Step gap w (after false w (fire w.now w.sched))
  loaded :
      (w : World)
      → 0 < w.running
      → Step gap w (after false (record w { running = w.running - 1 }) (settle gap w.now w.sched))
  unmount : (w : World) → Step gap w (record w { sched = cancel w.sched })

pub data Reach (gap : ℕ) (w : World) : World → Type 0 where
  here : Reach gap w w
  next : {v u : World} → Reach gap w v → Step gap v u → Reach gap w u
