-- ===== src/FleetSocket/Steps.antt =====
-- The fleet socket in its surroundings: frontend/src/hooks/useFleet.ts, lines 104 to 160.
use rmm_rxf_sys_de.Base.{
  ℕ, ◌≤◌, ◌≡◌, ◌≢◌, ◌⊎◌, refl, ◌∙◌, Bool, true, Option, none, some, is_some, leb, ◌&&◌, String,
  arith,
}
use rmm_rxf_sys_de.Refresh.{request, settle, fire, cancel}
use rmm_rxf_sys_de.JobStream.{absent, active, closing}
use rmm_rxf_sys_de.FleetSocket.{
  FleetSocket, ws_retry_min_ms, ws_retry_max_ms, min_refresh_gap_ms, attach, on_open, on_message,
  on_close, on_error, on_retry, cleanup,
}

-- A socket delivers nothing but its `close` after `close()` was called on it. The timeout of the
-- scheduler and the end of a load come whenever they come.
pub data Step : FleetSocket → FleetSocket → Type 0 where
  opened : (s : FleetSocket) → s.ws ≡ active → Step s (on_open s)
  message :
      (s : FleetSocket) (now : ℕ) (type : Option String)
      → s.ws ≡ active
      → Step s (on_message now type s)
  failing : (s : FleetSocket) → s.ws ≡ active → Step s (on_error s)
  dropped : (s : FleetSocket) → (s.ws ≡ active) ⊎ (s.ws ≡ closing) → Step s (on_close s)
  retried :
      (s : FleetSocket) (throws : Bool) (wait : ℕ)
      → s.retry ≡ some wait
      → Step s (on_retry throws s)
  fired : (s : FleetSocket) (now : ℕ) → Step s (record s { scheduler = (fire now s.scheduler).0 })
  loaded :
      (s : FleetSocket) (now : ℕ)
      → Step s (record s { scheduler = (settle min_refresh_gap_ms now s.scheduler).0 })
  unmounted : (s : FleetSocket) → Step s (cleanup s)

pub data Reach (s : FleetSocket) : FleetSocket → Type 0 where
  here : Reach s s
  next : {t u : FleetSocket} → Reach s t → Step t u → Reach s u

-- What `setTimeout` was given is between two seconds and a minute.
abbrev pub is_patient : Option ℕ → Bool
is_patient none = true
is_patient (some wait) = leb ws_retry_min_ms wait && leb wait ws_retry_max_ms

pub record IsValid (s : FleetSocket) : Type 0 where
  pub not_hasty : ws_retry_min_ms ≤ s.delay
  pub not_lazy : s.delay ≤ ws_retry_max_ms
  pub patient : is_patient s.retry ≡ true
  -- A reconnect is scheduled only while there is no socket.
  pub single : (is_some s.retry ≡ true) → s.ws ≡ absent
  -- Without a socket a reconnect is scheduled, unless the hook was left.
  pub never_gives_up : (s.closed ≡ true) ⊎ ((s.ws ≢ absent) ⊎ (is_some s.retry ≡ true))

attach-IsValid : (throws : Bool) → IsValid (attach throws)
unfolding attach
attach-IsValid throws = ground arith

Step-IsValid : {s t : FleetSocket} → Step s t → IsValid s → IsValid t
unfolding on_open on_message on_close on_error on_retry cleanup
Step-IsValid (opened s on) h = ground arith
Step-IsValid (message s now type on) h = ground arith
Step-IsValid (failing s on) h = ground arith
Step-IsValid (dropped s on) h = ground arith
Step-IsValid (retried s throws wait due) h = ground arith
Step-IsValid (fired s now) h = ground arith
Step-IsValid (loaded s now) h = ground arith
Step-IsValid (unmounted s) h = ground arith

Reach-IsValid : {s t : FleetSocket} → IsValid s → Reach s t → IsValid t
Reach-IsValid h here = h
Reach-IsValid h (next r st) = Step-IsValid st (Reach-IsValid h r)

-- Whatever the network does, as long as the page is open there is a socket or a reconnect is
-- scheduled, never both, and the wait that the timer of the
-- reconnect was given is between two seconds and a minute.
pub fleet_socket-IsValid : (s : FleetSocket) (throws : Bool) → Reach (attach throws) s → IsValid s
fleet_socket-IsValid s throws r = Reach-IsValid (attach-IsValid throws) r

Step-left :
    {s t : FleetSocket}
    → Step s t
    → s.closed ≡ true
    → s.scheduler.cancelled ≡ true
    → (t.closed ≡ true) × (t.scheduler.cancelled ≡ true) × (t.connects ≡ s.connects)
unfolding on_open on_message on_close on_error on_retry cleanup request settle fire cancel
Step-left (opened s on) h k = ground arith
Step-left (message s now type on) h k = ground arith
Step-left (failing s on) h k = ground arith
Step-left (dropped s on) h k = ground arith
Step-left (retried s throws wait due) h k = ground arith
Step-left (fired s now) h k = ground arith
Step-left (loaded s now) h k = ground arith
Step-left (unmounted s) h k = (refl, refl, refl)

Reach-left :
    {s t : FleetSocket}
    → s.closed ≡ true
    → s.scheduler.cancelled ≡ true
    → Reach s t
    → (t.closed ≡ true) × (t.scheduler.cancelled ≡ true) × (t.connects ≡ s.connects)
Reach-left h k here = (h, k, refl)
Reach-left h k (next r st) =
    let (closed, cancelled, same) = Reach-left h k r in
    let (still, quiet, kept) = Step-left st closed cancelled in (still, quiet, kept ∙ same)

-- Once the hook has left the page, no socket is opened any more and the scheduler stays cancelled.
pub leaving_stops :
    (s t : FleetSocket)
    → Reach (cleanup s) t
    → (t.connects ≡ s.connects) × (t.scheduler.cancelled ≡ true)
unfolding cleanup cancel
leaving_stops s t r = let (_, quiet, same) = Reach-left refl refl r in (same, quiet)
