-- ===== src/JobStream.antt =====
-- The live output of one job over a WebSocket: frontend/src/hooks/useJobStream.ts. `Stream` is the
-- state of the hook for one job id together with the variables of its effect; each event handler is
-- a function on it. Times are milliseconds.
pub mod Steps
pub mod Backoff
pub mod Replay
mod Tests
use Prim.Native.String
use rmm_rxf_sys_de.Base.{
  ℕ, ◌+◌, ◌*◌, min, Bool, true, false, String, Option, none, some, ◌||◌, ◌==◌, if◌then◌else◌,
  or_else, str_eq,
}
use rmm_rxf_sys_de.Base.Int.{ℤ}

pub data JobStatus : Type 0 where
  queued running done failed timeout : JobStatus

pub record JobStreamState : Type 0 where
  pub output : String
  pub status : Option JobStatus
  pub exit_code : Option ℤ
  -- False while a dropped socket is being retried.
  pub connected : Bool

abbrev pub empty : JobStreamState
empty = record { output = ""; status = none; exit_code = none; connected = false }

abbrev pub reconnect_min_ms : ℕ
reconnect_min_ms = 1000

abbrev pub reconnect_max_ms : ℕ
reconnect_max_ms = 15000

-- `FINAL_CLOSE_CODES.has(code)`
abbrev pub is_final : ℕ → Bool
is_final code = code == 4401 || (code == 4403 || code == 4404)

abbrev pub is_terminal : Option JobStatus → Bool
is_terminal (some done) = true
is_terminal (some failed) = true
is_terminal (some timeout) = true
is_terminal _ = false

-- The fields of a job in a snapshot; a field that is missing is `none`, and so is a null exit code.
pub record Snapshot : Type 0 where
  pub output : Option String
  pub status : Option JobStatus
  pub exit_code : Option ℤ

-- A parsed message. `chunk` is `none` where it is no text.
pub record Message : Type 0 where
  pub type : String
  pub job : Option Snapshot
  pub status : Option JobStatus
  pub chunk : Option String
  pub exit_code : Option ℤ

-- `ws`: none yet or closed, in use, or closing after `close()` was called on it.
pub data Socket : Type 0 where
  absent active closing : Socket

pub record Stream : Type 0 where
  pub state : JobStreamState
  pub status_ref : Option JobStatus
  pub closed : Bool
  pub socket : Socket
  -- A reconnect is scheduled.
  pub retry : Bool
  pub delay : ℕ
  -- How often `openJobSocket` was called.
  pub connects : ℕ

abbrev pub close_socket : Socket → Socket
close_socket absent = absent
close_socket active = closing
close_socket closing = closing

unfoldable pub connect : Stream → Stream
connect s = if s.closed then s else record s { socket = active; connects = s.connects + 1 }

-- What the effect does for a job id: `closed` is false and the first socket is opened.
unfoldable pub attach : Stream
unfolding connect
attach = connect (record {
  state = empty;
  status_ref = none;
  closed = false;
  socket = absent;
  retry = false;
  delay = reconnect_min_ms;
  connects = 0;
})

unfoldable pub on_open : Stream → Stream
on_open s = record s { delay = reconnect_min_ms; state = record (s.state) { connected = true } }

abbrev from_snapshot : Snapshot → JobStreamState
from_snapshot job = record {
  output = or_else job.output "";
  status = job.status;
  exit_code = job.exit_code;
  connected = true;
}

-- `a ?? b` where `b` may be missing too
abbrev or_keep {ℓ} : {A : Type ℓ} → Option A → Option A → Option A
or_keep none b = b
or_keep (some a) b = some a

unfoldable pub on_message : Message → Stream → Stream
on_message m s = elim (if str_eq m.type "snapshot" then m.job else none) [
  | some job ↦ record s { state = from_snapshot job }
  | none ↦ elim (if str_eq m.type "status" then m.status else none) [
    | some status ↦ record s { state = record (s.state) { status = some status } }
    | none ↦ elim (if str_eq m.type "output" then m.chunk else none) [
      | some chunk ↦ record s {
        state = record (s.state) { output = String.◌++◌ s.state.output chunk };
      }
      | none ↦
          if str_eq m.type "done"
          then record s {
            state = record (s.state) {
              status = or_keep m.status s.state.status;
              exit_code = m.exit_code;
              connected = true;
            };
            closed = true;
            socket = close_socket s.socket;
          }
          else s
    ]
  ]
]

unfoldable pub on_close : ℕ → Stream → Stream
on_close code s =
    let gone = record s { socket = absent } in
    if s.closed || is_terminal s.status_ref
    then gone
    else (let dropped = record gone { state = record (s.state) { connected = false } } in
        if is_final code
        then record dropped { closed = true }
        else record dropped { retry = true; delay = min (s.delay * 2) reconnect_max_ms })

unfoldable pub on_error : Stream → Stream
on_error s = record s { socket = close_socket s.socket }

-- The timer of a scheduled reconnect.
unfoldable pub on_retry : Stream → Stream
unfolding connect
on_retry s = connect (record s { retry = false })

-- The effect that mirrors the status after a render.
unfoldable pub commit : Stream → Stream
commit s = record s { status_ref = s.state.status }

unfoldable pub cleanup : Stream → Stream
cleanup s = record s { closed = true; retry = false; socket = close_socket s.socket }
