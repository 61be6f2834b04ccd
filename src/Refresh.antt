-- ===== src/Refresh.antt =====
-- The refresh scheduler of the fleet socket: frontend/src/hooks/useFleet.ts, lines 40 to 97. The
-- closure's variables are a record, and each function that it makes is a function from the record
-- to the new record and whether `load` was called. Times are milliseconds.
pub mod Steps
pub mod Invariant
pub mod Laws
pub mod Refines
mod Tests
use rmm_rxf_sys_de.Base.{ℕ, ◌+◌, ◌-◌, Bool, true, false, Option, none, some, is_some, if◌then◌else◌}

pub record Scheduler : Type 0 where
  pub in_flight : Bool
  pub queued : Bool
  -- `none` is the initial `NEGATIVE_INFINITY`.
  pub last_start : Option ℕ
  -- When the pending timeout is due.
  pub timer : Option ℕ
  pub cancelled : Bool

abbrev pub create : Scheduler
create = record {
  in_flight = false;
  queued = false;
  last_start = none;
  timer = none;
  cancelled = false;
}

unfoldable pub run : ℕ → Scheduler → Scheduler × Bool
run now s =
    if s.cancelled
    then (s, false)
    else (if s.in_flight
        then (record s { queued = true }, false)
        else (record s { in_flight = true; last_start = some now }, true))

-- `now + Math.max(0, lastStart + minGapMs - now)`
abbrev due_at : ℕ → ℕ → Option ℕ → ℕ
due_at gap now none = now
due_at gap now (some t) = now + (t + gap - now)

module _ (gap now : ℕ) where
  unfoldable pub request : Bool → Scheduler → Scheduler × Bool
  unfolding run
  request immediate s =
      if s.cancelled
      then (s, false)
      else (if immediate
          then run now (record s { timer = none })
          else (if is_some s.timer
              then (s, false)
              else (record s { timer = some (due_at gap now s.last_start) }, false)))

  -- What the promise of `load` does when it settles.
  unfoldable pub settle : Scheduler → Scheduler × Bool
  unfolding request
  settle s =
      if s.queued
      then request false (record s { in_flight = false; queued = false })
      else (record s { in_flight = false }, false)

-- The callback of the timeout.
unfoldable pub fire : ℕ → Scheduler → Scheduler × Bool
unfolding run
fire now s = run now (record s { timer = none })

unfoldable pub cancel : Scheduler → Scheduler
cancel s = record s { cancelled = true; timer = none }
