-- ===== src/JobStream/Tests.antt =====
-- The properties of the job stream at small runs: frontend/src/hooks/useJobStream.ts.
use rmm_rxf_sys_de.Base.{◌≡◌, ◌≢◌, refl, inl, String, some, none, [], ◌∷◌, arith}
use rmm_rxf_sys_de.JobStream.{
  Stream, Snapshot, Message, running, done, Socket, attach, on_open, on_message, on_close,
}
use rmm_rxf_sys_de.JobStream.Steps.{Reach, here, next, opened, message, dropped, last_close_stops}
use rmm_rxf_sys_de.JobStream.Replay.{replay, added_all, replay_from_snapshot}

abbrev snapshot : Snapshot
snapshot = record { output = some "one "; status = some running; exit_code = none }

abbrev first : Message
first = record {
  type = "snapshot";
  job = some snapshot;
  status = none;
  chunk = none;
  exit_code = none;
}

abbrev chunk : String → Message
chunk t = record { type = "output"; job = none; status = none; chunk = some t; exit_code = none }

abbrev last : Message
last = record { type = "done"; job = none; status = some done; chunk = none; exit_code = none }

-- Connected, and dropped by a code that is not final.
abbrev interrupted : Stream
interrupted = on_close 1006 (on_message first (on_open attach))

interrupted-Reach : Reach attach interrupted
unfolding attach on_open on_message
interrupted-Reach =
    next (next (next here (opened attach refl)) (message (on_open attach) first refl))
      (dropped (on_message first (on_open attach)) 1006 (inl refl))

attach-active : attach.socket ≢ Socket.absent
unfolding attach
attach-active h = ground arith

last_close_stops_example : (on_close 4404 attach).connects ≡ attach.connects
unfolding attach
last_close_stops_example =
    last_close_stops attach (on_close 4404 attach) 4404 here attach-active refl here

replay_from_snapshot_example :
    (replay (first ∷ chunk "two " ∷ chunk "three" ∷ []) interrupted).state.output ≡ "one two three"
unfolding added_all
replay_from_snapshot_example =
    replay_from_snapshot first snapshot (chunk "two " ∷ chunk "three" ∷ []) interrupted refl refl
      (refl, (refl, tt))
