-- ===== src/JobStream/Replay.antt =====
-- The output panel over a reconnect: frontend/src/hooks/useJobStream.ts, lines 91 to 122.
use Prim.Native.String
use text.Mathlib.TextLemmas.{append_assoc, append-nil}
use rmm_rxf_sys_de.Base.{
  ◌≡◌, refl, ◌∙◌, sym, true, false, String, List, [], ◌∷◌, some, arith, str_eq, or_else,
  if◌then◌else◌, All, Bool-cases, inl, inr,
}
use rmm_rxf_sys_de.Base.Text.{other_text}
use rmm_rxf_sys_de.JobStream.{Stream, Snapshot, Message, on_message}

unfoldable pub replay : List Message → Stream → Stream
replay [] s = s
replay (m ∷ ms) s = replay ms (on_message m s)

-- What a message adds to the output, if it is no snapshot.
abbrev pub added : Message → String
added m = if str_eq m.type "output" then or_else m.chunk "" else ""

unfoldable pub added_all : List Message → String
added_all [] = ""
added_all (m ∷ ms) = String.◌++◌ (added m) (added_all ms)

abbrev pub IsUpdate : Message → Type 0
IsUpdate m = str_eq m.type "snapshot" ≡ false

module _ (m : Message) (s : Stream) (update : IsUpdate m) where
  chunk_case :
      str_eq m.type "output" ≡ true
      → str_eq m.type "status" ≡ false
      → str_eq m.type "done" ≡ false
      → (on_message m s).state.output ≡ String.◌++◌ s.state.output (added m)
  unfolding on_message
  chunk_case o q l = ground (arith, append-nil s.state.output)

  output-on_message : (on_message m s).state.output ≡ String.◌++◌ s.state.output (added m)
  unfolding on_message
  output-on_message = elim (Bool-cases (str_eq m.type "output")) [
    | inl o ↦
        chunk_case o (other_text m.type "output" "status" o refl)
          (other_text m.type "output" "done" o refl)
    | inr other ↦ ground (arith, append-nil s.state.output)
  ]

output-replay :
    (ms : List Message) (s : Stream)
    → All IsUpdate ms
    → (replay ms s).state.output ≡ String.◌++◌ s.state.output (added_all ms)
unfolding replay added_all
output-replay [] s h = sym (append-nil s.state.output)
output-replay (m ∷ ms) s (u, h) =
    output-replay ms (on_message m s) h
    ∙ rw (output-on_message m s u) (append_assoc s.state.output (added m) (added_all ms))

-- A snapshot replaces the output, and everything after it is appended in order: after a reconnect
-- the panel shows the stored output and the chunks that followed once each, whatever it showed
-- before.
pub replay_from_snapshot :
    (m : Message) (job : Snapshot) (ms : List Message) (s : Stream)
    → str_eq m.type "snapshot" ≡ true
    → m.job ≡ some job
    → All IsUpdate ms
    → (replay (m ∷ ms) s).state.output ≡ String.◌++◌ (or_else job.output "") (added_all ms)
unfolding replay on_message
replay_from_snapshot m job ms s h j updates = output-replay ms (on_message m s) updates ∙ start
  where
    start :
        String.◌++◌ (on_message m s).state.output (added_all ms)
        ≡ String.◌++◌ (or_else job.output "") (added_all ms)
    start = rw (h, j, on_message)
