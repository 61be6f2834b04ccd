-- ===== src/Refresh/Laws.antt =====
-- What the refresh scheduler promises: frontend/src/hooks/useFleet.ts, lines 40 to 97.
use rmm_rxf_sys_de.Base.{
  ℕ, ◌+◌, ◌≤◌, ◌<◌, ◌≡◌, ◌⊎◌, Bool, true, false, some, arith, ltb, length, ◌||◌, is_some, refl,
  if◌then◌else◌, ◌∷◌, ◌∙◌,
}
use rmm_rxf_sys_de.Refresh.{Scheduler, request, settle, fire, cancel}
use rmm_rxf_sys_de.Refresh.Steps.{
  World, start_world, after, Step, tick, ask, timeout, loaded, unmount, Reach, here, next,
}
use rmm_rxf_sys_de.Refresh.Invariant.{IsValid, spaced, start_world-IsValid, Reach-IsValid}

-- However requests, timeouts and settling loads interleave: at most one load is running, and every
-- load that no immediate request forced starts at least the gap after the start before it.
pub scheduler_throttles :
    (gap : ℕ) (w : World) → Reach gap start_world w → (w.running ≤ 1) × (spaced gap w.starts ≡ true)
scheduler_throttles gap w r = let v = Reach-IsValid (start_world-IsValid gap) r in (one v, v.gaps)
  where
    one : IsValid gap w → w.running ≤ 1
    one v = ground arith

Step-cancelled :
    {gap : ℕ} {w v : World}
    → Step gap w v
    → w.sched.cancelled ≡ true
    → (v.sched.cancelled ≡ true) × (v.starts ≡ w.starts)
unfolding request settle fire cancel
Step-cancelled (tick w n) h = (h, refl)
Step-cancelled (ask w immediate) h = ground arith
Step-cancelled (timeout w t due late) h = ground arith
Step-cancelled (loaded w busy) h = ground arith
Step-cancelled (unmount w) h = (refl, refl)

Reach-cancelled :
    {gap : ℕ} {w v : World}
    → w.sched.cancelled ≡ true
    → Reach gap w v
    → (v.sched.cancelled ≡ true) × (v.starts ≡ w.starts)
Reach-cancelled h here = (h, refl)
Reach-cancelled h (next r s) =
    let (still, same) = Reach-cancelled h r in
    let (after_step, kept) = Step-cancelled s still in (after_step, kept ∙ same)

-- Once the scheduler is cancelled no load starts any more: not by a timeout that was pending, a
-- follow-up that was queued, or a later request.
pub cancel_stops :
    (gap : ℕ) (w v : World)
    → Reach gap (record w { sched = cancel w.sched }) v
    → v.starts ≡ w.starts
unfolding cancel
cancel_stops gap w v r = (Reach-cancelled refl r).1

-- A load is on its way: a timeout is pending, or a follow-up is queued behind the load in flight.
abbrev pub pending : Scheduler → Bool
pending s = is_some s.timer || s.queued

abbrev answered : ℕ → World → Bool
answered n w = w.sched.cancelled || (ltb n (length w.starts) || pending w.sched)

Step-answered :
    {gap : ℕ} (n : ℕ) {w v : World}
    → Step gap w v
    → n ≤ length w.starts
    → answered n w ≡ true
    → (n ≤ length v.starts) × (answered n v ≡ true)
unfolding request settle fire cancel
Step-answered n (tick w k) m h = (m, h)
Step-answered n (ask w immediate) m h = ground arith
Step-answered n (timeout w t due late) m h = ground arith
Step-answered n (loaded w busy) m h = ground arith
Step-answered n (unmount w) m h = (m, refl)

Reach-answered :
    {gap : ℕ} (n : ℕ) {w v : World}
    → n ≤ length w.starts
    → answered n w ≡ true
    → Reach gap w v
    → (n ≤ length v.starts) × (answered n v ≡ true)
Reach-answered n m h here = (m, h)
Reach-answered n m h (next r s) =
    let (below, ok) = Reach-answered n m h r in Step-answered n s below ok

ask_answered :
    (gap : ℕ) (w : World) (immediate : Bool)
    → (length w.starts ≤ length (after immediate w (request gap w.now immediate w.sched)).starts)
      × (answered (length w.starts) (after immediate w (request gap w.now immediate w.sched))
          ≡ true)
unfolding request
ask_answered gap w immediate = ground arith

-- No request is lost: whatever happens after it, as long as the scheduler is not cancelled, either
-- a load has started since or one is on its way.
pub request_not_lost :
    (gap : ℕ) (w v : World) (immediate : Bool)
    → Reach gap (after immediate w (request gap w.now immediate w.sched)) v
    → v.sched.cancelled ≡ false
    → (length w.starts < length v.starts) ⊎ (pending v.sched ≡ true)
request_not_lost gap w v immediate r live =
    let (grown, ok) = ask_answered gap w immediate in
    let (_, still) = Reach-answered (length w.starts) grown ok r in ground arith

-- A pending timeout is due within the gap, and its callback, at that time or later, starts a load if
-- none is in flight, and queues one behind the load in flight otherwise: a request waits no longer.
pub timeout_serves :
    (gap : ℕ) (w : World) (t n : ℕ)
    → Reach gap start_world w
    → w.sched.timer ≡ some t
    → t ≤ w.now + n
    → (t ≤ w.now + gap)
      × ((after false (record w { now = w.now + n }) (fire (w.now + n) w.sched)).starts ≡ (
          if w.sched.in_flight
          then w.starts
          else record { at = w.now + n; forced = false } ∷ w.starts))
      × ((fire (w.now + n) w.sched).0.in_flight ≡ true)
      × ((fire (w.now + n) w.sched).0.queued ≡ w.sched.in_flight)
unfolding fire
timeout_serves gap w t n r e late =
    let v = Reach-IsValid (start_world-IsValid gap) r in
    (
      ground arith,
      ground (arith, v.quiet),
      ground (arith, v.quiet),
      ground (arith, v.quiet, v.queue_waits),
    )
