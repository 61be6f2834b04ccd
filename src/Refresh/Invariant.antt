-- ===== src/Refresh/Invariant.antt =====
-- What holds in every reachable state of the scheduler.
use rmm_rxf_sys_de.Base.{
  ℕ, ◌+◌, ◌≡◌, Bool, true, Option, none, some, List, [], ◌∷◌, arith, leb, ◌||◌, ◌&&◌, if◌then◌else◌,
}
use rmm_rxf_sys_de.Refresh.{request, settle, fire, cancel}
use rmm_rxf_sys_de.Refresh.Steps.{
  Start, World, start_world, Step, tick, ask, timeout, loaded, unmount, Reach, here, next,
}

-- A start that nobody forced comes at least `gap` after the start before it.
abbrev pub spaced : ℕ → List Start → Bool
spaced gap [] = true
spaced gap (a ∷ []) = true
spaced gap (a ∷ b ∷ starts) = (a.forced || leb (b.at + gap) a.at) && spaced gap (b ∷ starts)

abbrev latest : List Start → Option ℕ
latest [] = none
latest (a ∷ starts) = some a.at

abbrev due_ok : ℕ → Option ℕ → Option ℕ → Bool
due_ok gap (some last) (some due) = leb (last + gap) due
due_ok gap _ _ = true

abbrev not_later : Option ℕ → ℕ → Bool
not_later none now = true
not_later (some t) now = leb t now

pub record IsValid (gap : ℕ) (w : World) : Type 0 where
  pub one_load : w.running ≡ (if w.sched.in_flight then 1 else 0)
  pub queue_waits : (w.sched.queued ≡ true) → w.sched.in_flight ≡ true
  pub last_known : w.sched.last_start ≡ latest w.starts
  pub last_past : not_later (latest w.starts) w.now ≡ true
  pub due_late : due_ok gap w.sched.last_start w.sched.timer ≡ true
  pub timely : not_later w.sched.timer (w.now + gap) ≡ true
  pub gaps : spaced gap w.starts ≡ true
  pub quiet : (w.sched.cancelled ≡ true) → w.sched.timer ≡ none

pub start_world-IsValid : (gap : ℕ) → IsValid gap start_world
start_world-IsValid gap = ground arith

Step-IsValid : {gap : ℕ} {w v : World} → Step gap w v → IsValid gap w → IsValid gap v
unfolding request settle fire cancel
Step-IsValid (tick w n) h = ground arith
Step-IsValid (ask w immediate) h = ground arith
Step-IsValid (timeout w t due late) h = ground arith
Step-IsValid (loaded w busy) h = ground arith
Step-IsValid (unmount w) h = ground arith

pub Reach-IsValid : {gap : ℕ} {w v : World} → IsValid gap w → Reach gap w v → IsValid gap v
Reach-IsValid h here = h
Reach-IsValid h (next r s) = Step-IsValid s (Reach-IsValid h r)
