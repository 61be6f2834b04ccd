-- ===== src/Track/Polls.antt =====
-- How often one job is asked for: frontend/src/ui/toast.tsx, lines 96 to 136.
use rmm_rxf_sys_de.Base.{ℕ, zero, suc, ◌+◌, ◌*◌, ◌≤◌, ◌<◌, ◌≡◌, String, arith}
use rmm_rxf_sys_de.Fleet.Jobs.{Job}
use rmm_rxf_sys_de.Track.{
  Session, Follower, waiting, asking, poll_ms, track_job, on_timeout, on_answer, on_failure,
}

-- A follower from its start, after `n` timeouts, at a time; the session may be another each time.
pub data Polled (f : Follower) : ℕ → ℕ → Follower → Type 0 where
  begins : Polled f zero f.started f
  passes : {n t : ℕ} {g : Follower} → Polled f n t g → (d : ℕ) → Polled f n (t + d) g
  fires :
      {n t : ℕ} {g : Follower}
      → Polled f n t g
      → (s : Session) (due : ℕ) → g.phase ≡ waiting due
      → due ≤ t
      → Polled f (suc n) t (on_timeout s g)
  answers :
      {n t : ℕ} {g : Follower}
      → Polled f n t g
      → (s : Session) (j : Job) → g.phase ≡ asking
      → Polled f n t (on_answer t s j g).1
  fails :
      {n t : ℕ} {g : Follower} → Polled f n t g → g.phase ≡ asking → Polled f n t (on_failure t g)

record IsPaced (n t : ℕ) (g : Follower) : Type 0 where
  begun : g.started + poll_ms * n ≤ t
  few : n ≤ 3600
  paced : (due : ℕ) → g.phase ≡ waiting due → (n < 3600) × (g.started + poll_ms * n + poll_ms ≤ due)

Polled-IsPaced :
    (now : ℕ) (s₀ : Session) (job : Job) (name label : String) {n t : ℕ} {g : Follower}
    → Polled (track_job now s₀ job name label) n t g
    → IsPaced n t g
unfolding track_job on_timeout on_answer on_failure
Polled-IsPaced now s₀ job name label begins = record {
  begun = omega arith;
  few = omega arith;
  paced = λ due e. ground arith;
}
Polled-IsPaced now s₀ job name label (passes r d) =
    let i = Polled-IsPaced now s₀ job name label r in
    record { begun = omega arith; few = i.few; paced = i.paced }
Polled-IsPaced now s₀ job name label (fires r s due p l) =
    let i = Polled-IsPaced now s₀ job name label r in
    let k = i.paced due p in
    record { begun = ground arith; few = omega arith; paced = λ d e. ground arith }
Polled-IsPaced now s₀ job name label (answers r s j p) =
    let i = Polled-IsPaced now s₀ job name label r in
    record { begun = ground arith; few = i.few; paced = λ d e. ground arith }
Polled-IsPaced now s₀ job name label (fails r p) =
    let i = Polled-IsPaced now s₀ job name label r in
    record { begun = ground arith; few = i.few; paced = λ d e. ground arith }

-- Whatever the server answers and how long it takes, a job is asked for at most 3600 times, and not
-- more often than every two seconds since it was started.
pub polls_bounded :
    (now : ℕ) (s : Session) (job : Job) (name label : String) {n t : ℕ} {g : Follower}
    → Polled (track_job now s job name label) n t g
    → (n ≤ 3600) × (g.started + poll_ms * n ≤ t)
polls_bounded now s job name label r =
    let i = Polled-IsPaced now s job name label r in (i.few, i.begun)
