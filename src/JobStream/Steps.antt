-- ===== src/JobStream/Steps.antt =====
-- The stream in its surroundings: which events the browser can deliver when. A socket delivers
-- nothing but its `close` after `close()` was called on it.
use rmm_rxf_sys_de.Base.{
  ℕ, ◌+◌, ◌≤◌, ◌≡◌, ◌⊎◌, inl, inr, ◌≢◌, ◌∙◌, refl, Bool, true, false, not, ◌||◌, ◌&&◌, arith,
  str_eq,
}
use rmm_rxf_sys_de.Base.Text.{other_text}
use rmm_rxf_sys_de.JobStream.{
  Socket, absent, active, closing, Stream, Message, reconnect_min_ms, reconnect_max_ms, attach,
  on_open, on_message, on_close, on_error, on_retry, commit, cleanup, is_final, is_terminal,
}

abbrev is_absent : Socket → Bool
is_absent absent = true
is_absent _ = false

pub data Step : Stream → Stream → Type 0 where
  opened : (s : Stream) → s.socket ≡ active → Step s (on_open s)
  message : (s : Stream) (m : Message) → s.socket ≡ active → Step s (on_message m s)
  failing : (s : Stream) → s.socket ≡ active → Step s (on_error s)
  dropped :
      (s : Stream) (code : ℕ)
      → (s.socket ≡ active) ⊎ (s.socket ≡ closing)
      → Step s (on_close code s)
  retried : (s : Stream) → s.retry ≡ true → Step s (on_retry s)
  rendered : (s : Stream) → Step s (commit s)
  unmounted : (s : Stream) → Step s (cleanup s)

pub data Reach (s : Stream) : Stream → Type 0 where
  here : Reach s s
  next : {t u : Stream} → Reach s t → Step t u → Reach s u

pub record IsValid (s : Stream) : Type 0 where
  pub not_hasty : reconnect_min_ms ≤ s.delay
  pub not_lazy : s.delay ≤ reconnect_max_ms
  -- A reconnect is scheduled only while there is no socket.
  pub single : (s.retry ≡ true) → s.socket ≡ absent

Step-IsValid : {s t : Stream} → Step s t → IsValid s → IsValid t
unfolding on_open on_message on_close on_error on_retry commit cleanup
Step-IsValid (opened s on) h = ground arith
Step-IsValid (message s m on) h = ground arith
Step-IsValid (failing s on) h = ground arith
Step-IsValid (dropped s code on) h = ground arith
Step-IsValid (retried s due) h = ground arith
Step-IsValid (rendered s) h = ground arith
Step-IsValid (unmounted s) h = ground arith

Reach-IsValid : {s t : Stream} → IsValid s → Reach s t → IsValid t
Reach-IsValid h here = h
Reach-IsValid h (next r st) = Step-IsValid st (Reach-IsValid h r)

attach-IsValid : IsValid attach
unfolding attach
attach-IsValid = ground arith

-- Whatever the server and the network do, the wait before a reconnect stays between one second and
-- fifteen, and a reconnect is only ever scheduled while there is no socket: the stream never holds
-- two sockets of one job.
pub stream-IsValid : (s : Stream) → Reach attach s → IsValid s
stream-IsValid s r = Reach-IsValid attach-IsValid r

-- No reconnect can happen any more: the stream is closed, or it has neither socket nor timer.
abbrev is_over : Stream → Bool
is_over s = s.closed || (is_absent s.socket && not s.retry)

Step-over :
    {s t : Stream} → Step s t → is_over s ≡ true → (is_over t ≡ true) × (t.connects ≡ s.connects)
unfolding on_open on_message on_close on_error on_retry commit cleanup
Step-over (opened s on) h = ground arith
Step-over (message s m on) h = ground arith
Step-over (failing s on) h = ground arith
Step-over (dropped s code on) h = ground arith
Step-over (retried s due) h = ground arith
Step-over (rendered s) h = (h, refl)
Step-over (unmounted s) h = (refl, refl)

Reach-over :
    {s t : Stream} → is_over s ≡ true → Reach s t → (is_over t ≡ true) × (t.connects ≡ s.connects)
Reach-over h here = (h, refl)
Reach-over h (next r st) =
    let (still, same) = Reach-over h r in
    let (after, kept) = Step-over st still in (after, kept ∙ same)

-- A close that a retry cannot change: the stream is closed, the job's last rendered status is
-- terminal, or the server closed with one of the final codes.
abbrev pub is_last : ℕ → Stream → Bool
is_last code s = s.closed || (is_terminal s.status_ref || is_final code)

-- After such a close the job's socket is never opened again, whatever happens.
pub last_close_stops :
    (s t : Stream) (code : ℕ)
    → Reach attach s
    → s.socket ≢ absent
    → is_last code s ≡ true
    → Reach (on_close code s) t
    → t.connects ≡ s.connects
unfolding on_close
last_close_stops s t code r on last after =
    let v = stream-IsValid s r in
    let over : is_over (on_close code s) ≡ true = ground arith in
    let kept : (on_close code s).connects ≡ s.connects = ground arith in
    (Reach-over over after).1 ∙ kept

-- After any other close the panel shows that the stream is interrupted, a reconnect is scheduled,
-- and when its time comes a new socket is opened.
pub drop_reconnects :
    (s : Stream) (code : ℕ)
    → is_last code s ≡ false
    → ((on_close code s).state.connected ≡ false)
      × ((on_close code s).retry ≡ true)
      × ((on_retry (on_close code s)).socket ≡ active)
      × ((on_retry (on_close code s)).connects ≡ s.connects + 1)
unfolding on_close on_retry
drop_reconnects s code h = ground arith

-- After `done` has arrived, or once the hook has left the job, no socket is opened any more.
pub done_stops :
    (s t : Stream) (m : Message)
    → str_eq m.type "done" ≡ true
    → Reach (on_message m s) t ⊎ Reach (cleanup s) t
    → t.connects ≡ s.connects
unfolding on_message cleanup
done_stops s t m h (inl r) =
    let plain = other_text m.type "done" "snapshot" h refl in
    let quiet = other_text m.type "done" "status" h refl in
    let silent = other_text m.type "done" "output" h refl in
    let (over, kept) = ends plain quiet silent in (Reach-over over r).1 ∙ kept
  where
    ends :
        str_eq m.type "snapshot" ≡ false
        → str_eq m.type "status" ≡ false
        → str_eq m.type "output" ≡ false
        → (is_over (on_message m s) ≡ true) × ((on_message m s).connects ≡ s.connects)
    ends plain quiet silent = rw (plain, quiet, silent, h, on_message) (refl, refl)
done_stops s t m h (inr r) = (Reach-over refl r).1
