-- ===== src/Track/Results.antt =====
-- The list of results: frontend/src/ui/toast.tsx, lines 40 to 59.
use rmm_rxf_sys_de.Base.{
  ℕ, zero, suc, ◌≤◌, ◌≡◌, refl, Bool, true, false, ◌&&◌, List, [], ◌∷◌, filter, take, any, length,
  length-take, Bool-cases, inl, inr, ◌==◌, arith,
}
use rmm_rxf_sys_de.Fleet.Jobs.{is_final}
use rmm_rxf_sys_de.Track.{
  JobResult, Session, push_result, is_other, max_results, result_of, reset_job_results,
}
use rmm_rxf_sys_de.Track.Owned.{told, on_answer-told, on_round_answer-told}
use rmm_rxf_sys_de.Track.Steps.{
  World, loaded, Step, passes, starts, starts_round, fires, answers, fails, fires_round,
  answers_round, fails_round, settles_round, signs_out, Reach, here, next,
}

abbrev pub of_job : ℕ → JobResult → Bool
of_job id x = x.job_id == id

abbrev pub Distinct : List JobResult → Type 0
Distinct [] = Unit
Distinct (x ∷ xs) = (any (of_job x.job_id) xs ≡ false) × Distinct xs

abbrev pub IsBoard : List JobResult → Type 0
IsBoard xs = (length xs ≤ max_results) × Distinct xs

filter-Distinct :
    (p : JobResult → Bool) (xs : List JobResult) → Distinct xs → Distinct (filter p xs)
filter-Distinct p [] h = tt
filter-Distinct p (x ∷ xs) (h, k) = elim (Bool-cases (p x)) [
  | inl kept ↦ rw (kept) (gone p (of_job x.job_id) xs h, filter-Distinct p xs k)
  | inr dropped ↦ rw (dropped) (filter-Distinct p xs k)
]
  where
    gone :
        (p q : JobResult → Bool) (xs : List JobResult)
        → any q xs ≡ false
        → any q (filter p xs) ≡ false
    gone p q [] h = refl
    gone p q (x ∷ xs) h = ground (arith, gone p q xs)

take-Distinct : (n : ℕ) (xs : List JobResult) → Distinct xs → Distinct (take n xs)
take-Distinct zero xs h = tt
take-Distinct (suc n) [] h = tt
take-Distinct (suc n) (x ∷ xs) (h, k) = (gone n (of_job x.job_id) xs h, take-Distinct n xs k)
  where
    gone :
        (n : ℕ) (q : JobResult → Bool) (xs : List JobResult)
        → any q xs ≡ false
        → any q (take n xs) ≡ false
    gone zero q xs h = refl
    gone (suc n) q [] h = refl
    gone (suc n) q (x ∷ xs) h = ground (arith, gone n q xs)

others :
    (x : JobResult) (xs : List JobResult) → any (of_job x.job_id) (filter (is_other x) xs) ≡ false
others x [] = refl
others x (y ∷ ys) = ground (arith, others x ys)

push-IsBoard :
    (x : JobResult) (g : ℕ) (s : Session) → IsBoard s.results → IsBoard (push_result x g s).results
unfolding push_result
push-IsBoard x g s (n, d) = elim (Bool-cases (g == s.generation)) [
  | inl same ↦ rw (same) (
    omega (arith, length-take max_results (x ∷ filter (is_other x) s.results)),
    take-Distinct max_results (x ∷ filter (is_other x) s.results)
        (others x s.results, filter-Distinct (is_other x) s.results d),
  )
  | inr other ↦ rw (other) (n, d)
]

told-IsBoard :
    (b : Bool) (x : JobResult) (g : ℕ) (s : Session)
    → IsBoard s.results
    → IsBoard (told b x g s).results
told-IsBoard true x g s h = push-IsBoard x g s h
told-IsBoard false x g s h = h

Step-IsBoard : {w v : World} → Step w v → IsBoard w.session.results → IsBoard v.session.results
unfolding reset_job_results
Step-IsBoard (passes w n) h = h
Step-IsBoard (starts w j name label) h = h
Step-IsBoard (starts_round w d e entries label) h = h
Step-IsBoard (fires w xs f ys due at p l) h = h
Step-IsBoard (answers w xs f ys j at p same) h = rw (on_answer-told w.clock w.session j f) (
    told-IsBoard (f.gen == w.session.generation && is_final j.status)
      (result_of w.clock j f.device_name f.label) f.gen w.session h)
Step-IsBoard (fails w xs f ys at p) h = h
Step-IsBoard (fires_round w xs r ys due at p l) h = h
Step-IsBoard (answers_round w xs r ys es e fs j at p out same) h =
    rw (on_round_answer-told w.clock w.session j es e fs r) (
      told-IsBoard (r.gen == w.session.generation && is_final j.status)
        (result_of w.clock j e.device_name r.label) r.gen w.session h)
Step-IsBoard (fails_round w xs r ys es e fs at p out) h = h
Step-IsBoard (settles_round w xs r ys at p out) h = h
Step-IsBoard (signs_out w) h = (omega arith, tt)

-- At any time at most twenty results are kept, no two of them of one job.
pub job_results-IsBoard : {w : World} → Reach loaded w → IsBoard w.session.results
job_results-IsBoard here = (omega arith, tt)
job_results-IsBoard (next r st) = Step-IsBoard st (job_results-IsBoard r)
