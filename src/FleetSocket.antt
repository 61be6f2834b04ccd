-- ===== src/FleetSocket.antt =====
-- The fleet socket: `useFleetSocket` of frontend/src/hooks/useFleet.ts, lines 99 to 161. The
-- variables of the effect are a record; each handler is a function on it. A hint asks the refresh
-- scheduler for a load, which at most sets its timeout, so whether a load started is dropped here.
pub mod Steps
mod Tests
use rmm_rxf_sys_de.Base.{
  ℕ, ◌+◌, ◌*◌, min, Bool, true, false, Option, none, some, String, str_eq, if◌then◌else◌,
}
use rmm_rxf_sys_de.Refresh.{Scheduler, create, request, cancel}
use rmm_rxf_sys_de.JobStream.{Socket, absent, active, close_socket}

abbrev pub ws_retry_min_ms : ℕ
ws_retry_min_ms = 2000

abbrev pub ws_retry_max_ms : ℕ
ws_retry_max_ms = 60000

abbrev pub min_refresh_gap_ms : ℕ
min_refresh_gap_ms = 2000

pub record FleetSocket : Type 0 where
  pub scheduler : Scheduler
  pub closed : Bool
  -- The wait that the scheduled reconnect was given, `retry = setTimeout(connect, wait)`.
  pub retry : Option ℕ
  pub delay : ℕ
  pub ws : Socket
  -- How often `openFleetSocket` was called.
  pub connects : ℕ

-- The next attempt waits for `delay`, and the one after it for twice as long.
abbrev back_off : FleetSocket → FleetSocket
back_off s = record s { retry = some s.delay; delay = min (s.delay * 2) ws_retry_max_ms }

-- `throws`: constructing the socket threw.
unfoldable pub connect : Bool → FleetSocket → FleetSocket
connect throws s =
    if s.closed
    then s
    else (if throws
        then back_off (record s { connects = s.connects + 1 })
        else record s { ws = active; connects = s.connects + 1 })

unfoldable pub attach : Bool → FleetSocket
unfolding connect
attach throws = connect throws (record {
  scheduler = create;
  closed = false;
  retry = none;
  delay = ws_retry_min_ms;
  ws = absent;
  connects = 0;
})

unfoldable pub on_open : FleetSocket → FleetSocket
on_open s = record s { delay = ws_retry_min_ms }

-- The type of the message; `none` for a frame that is not JSON.
unfoldable pub on_message : ℕ → Option String → FleetSocket → FleetSocket
on_message now none s = s
on_message now (some type) s =
    if str_eq type "refresh"
    then record s { scheduler = (request min_refresh_gap_ms now false s.scheduler).0 }
    else s

unfoldable pub on_close : FleetSocket → FleetSocket
on_close s = let gone = record s { ws = absent } in if s.closed then gone else back_off gone

unfoldable pub on_error : FleetSocket → FleetSocket
on_error s = record s { ws = close_socket s.ws }

-- The timer of a scheduled reconnect.
unfoldable pub on_retry : Bool → FleetSocket → FleetSocket
unfolding connect
on_retry throws s = connect throws (record s { retry = none })

unfoldable pub cleanup : FleetSocket → FleetSocket
cleanup s = record s {
  closed = true;
  scheduler = cancel s.scheduler;
  retry = none;
  ws = close_socket s.ws;
}
