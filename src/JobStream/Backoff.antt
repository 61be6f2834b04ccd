-- ===== src/JobStream/Backoff.antt =====
-- The waits between reconnects: frontend/src/hooks/useJobStream.ts, lines 86 to 114.
use native.Mathlib.Nat.{pow-suc}
use Prim.Native.Nat.{◌^◌}
use mathlib.Core.Path.{subst}
use rmm_rxf_sys_de.Base.{ℕ, zero, suc, ◌*◌, ◌≡◌, ◌∙◌, sym, ap, refl, min, false, none, arith}
use rmm_rxf_sys_de.JobStream.{
  Stream, reconnect_min_ms, reconnect_max_ms, is_final, attach, on_open, on_close, on_retry,
}

-- `n` times in a row the socket is dropped and opened again, and no open succeeds.
unfoldable pub drops : ℕ → ℕ → Stream → Stream
drops zero code s = s
drops (suc n) code s = on_retry (on_close code (drops n code s))

double_capped :
    (p : ℕ)
    → min (min (reconnect_min_ms * p) reconnect_max_ms * 2) reconnect_max_ms
      ≡ min (reconnect_min_ms * (p * 2)) reconnect_max_ms
double_capped p = omega arith

-- The state between two drops.
record IsWaiting (wait : ℕ) (s : Stream) : Type 0 where
  waits : s.delay ≡ wait
  live : s.closed ≡ false
  unknown : s.status_ref ≡ none

round :
    (code wait : ℕ) (s : Stream)
    → is_final code ≡ false
    → IsWaiting wait s
    → IsWaiting (min (wait * 2) reconnect_max_ms) (on_retry (on_close code s))
unfolding on_retry on_close
round code wait s h w =
    rw (w.live, w.unknown, h, on_close)
      (record {
        waits = ap (λ d. min (d * 2) reconnect_max_ms) w.waits;
        live = refl;
        unknown = refl;
      })

rounds :
    (n code : ℕ)
    → is_final code ≡ false
    → IsWaiting (min (reconnect_min_ms * 2 ^ n) reconnect_max_ms) (drops n code attach)
unfolding drops attach
rounds zero code h = record { waits = omega arith; live = refl; unknown = refl }
rounds (suc n) code h =
    subst (λ d. IsWaiting d (drops (suc n) code attach))
      (double_capped (2 ^ n)
        ∙ ap (λ d. min (reconnect_min_ms * d) reconnect_max_ms) (sym (pow-suc 2 n)))
      (round code _ (drops n code attach) h (rounds n code h))

-- The wait before the reconnect doubles from one second with every drop in a row, up to fifteen
-- seconds, and the first connection that succeeds takes it back to one second.
pub backoff_doubles :
    (n code : ℕ)
    → is_final code ≡ false
    → ((drops n code attach).delay ≡ min (reconnect_min_ms * 2 ^ n) reconnect_max_ms)
      × ((on_open (drops n code attach)).delay ≡ reconnect_min_ms)
unfolding on_open
backoff_doubles n code h = ((rounds n code h).waits, refl)
