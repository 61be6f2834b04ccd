-- ===== src/Track/Owned.antt =====
-- What an account sees of jobs it did not start: frontend/src/ui/toast.tsx, lines 43 to 62.
use rmm_rxf_sys_de.Base.{
  ℕ, ◌+◌, ◌≤◌, ◌≡◌, refl, ◌∙◌, sym, Bool, true, false, ◌&&◌, ◌||◌, is_some, List, [], ◌∷◌, ◌++◌,
  map, filter, any, All, All-at, All-replaced, All-without, All-append, All-mono, All-take,
  All-drop, All-filter, any-replaced, any-at, Bool-cases, inl, inr, ◌==◌, leb, length, ◌-◌,
  if◌then◌else◌, arith,
}
use rmm_rxf_sys_de.Fleet.Jobs.{Job, is_final}
use rmm_rxf_sys_de.Track.{
  JobResult, Session, Follower, push_result, is_other, max_results, max_wait_ms, on_timeout,
  on_answer, on_failure, track_job, result_of, reset_job_results,
}
use rmm_rxf_sys_de.Track.Round.{
  Entry, Round, track_round, on_round, on_round_answer, on_round_failure, on_round_settled,
}
use rmm_rxf_sys_de.Track.Steps.{
  World, loaded, dismissed, dismissed_round, Step, passes, starts, starts_round, fires, answers,
  fails, fires_round, answers_round, fails_round, settles_round, signs_out, Reach, here, next,
}

abbrev pub has : ℕ → List Entry → Bool
has id es = any (λ (e : Entry). e.job.id == id) es

abbrev follows : ℕ → ℕ → Follower → Bool
follows gen id f = f.gen == gen && f.job.id == id

abbrev takes_in : ℕ → ℕ → Round → Bool
takes_in gen id r = r.gen == gen && has id r.entries

-- The job is one that was started in that generation.
abbrev pub started_in : ℕ → List Follower → List Round → ℕ → Bool
started_in gen fs rs id = any (follows gen id) fs || any (takes_in gen id) rs

abbrev pub Own : World → JobResult → Type 0
Own w x = started_in w.session.generation w.singles w.rounds x.job_id ≡ true

-- It was not started later than in that generation, and has a toast only if in that very one.
abbrev pub Shown : ℕ → Follower → Type 0
Shown gen f = (f.gen ≤ gen) × (is_some f.toast ≡ true → f.gen ≡ gen)

abbrev pub ShownRound : ℕ → Round → Type 0
ShownRound gen r = (r.gen ≤ gen) × (is_some r.toast ≡ true → r.gen ≡ gen)

-- What a round still asks for is among its entries.
abbrev Asked : Round → Type 0
Asked r =
    All (λ (e : Entry). has e.job.id r.entries ≡ true) r.queue
    × All (λ (e : Entry). has e.job.id r.entries ≡ true) r.out

record IsValid (w : World) : Type 0 where
  own : All (Own w) w.session.results
  shown : All (Shown w.session.generation) w.singles
  shown_rounds : All (ShownRound w.session.generation) w.rounds
  asked : All Asked w.rounds

push-generation :
    (x : JobResult) (g : ℕ) (s : Session) → (push_result x g s).generation ≡ s.generation
unfolding push_result
push-generation x g s = ground arith

push-All :
    (P : JobResult → Type 0) (x : JobResult) (g : ℕ) (s : Session)
    → (g ≡ s.generation → P x)
    → All P s.results
    → All P (push_result x g s).results
unfolding push_result
push-All P x g s p h = elim (Bool-cases (g == s.generation)) [
  | inl same ↦ rw (same) (
      All-take P max_results (x ∷ filter (is_other x) s.results)
        (p (ground arith), All-filter P (is_other x) s.results h))
  | inr other ↦ rw (other) h
]

-- An operation on a follower changes neither its job nor its session.
abbrev Kept : ℕ → Follower → Follower → Type 0
Kept gen f f' = (f'.gen ≡ f.gen) × (f'.job.id ≡ f.job.id) × Shown gen f'

on_timeout-Kept :
    (s : Session) (f : Follower) → Shown s.generation f → Kept s.generation f (on_timeout s f)
unfolding on_timeout
on_timeout-Kept s f h = ground (arith, h)

on_failure-Kept : (now gen : ℕ) (f : Follower) → Shown gen f → Kept gen f (on_failure now f)
unfolding on_failure
on_failure-Kept now gen f h = ground (arith, h)

on_answer-Kept :
    (now : ℕ) (s : Session) (j : Job) (f : Follower)
    → Shown s.generation f
    → Kept s.generation f (on_answer now s j f).1
unfolding on_answer
on_answer-Kept now s j f h = ground (arith, h)

-- A session that takes the result in, or stays.
abbrev pub told : Bool → JobResult → ℕ → Session → Session
told b x g s = if b then push_result x g s else s

told-generation :
    (b : Bool) (x : JobResult) (g : ℕ) (s : Session) → (told b x g s).generation ≡ s.generation
told-generation true x g s = push-generation x g s
told-generation false x g s = refl

told-All :
    (P : JobResult → Type 0) (b : Bool) (x : JobResult) (g : ℕ) (s : Session)
    → (g ≡ s.generation → P x)
    → All P s.results
    → All P (told b x g s).results
told-All P true x g s p h = push-All P x g s p h
told-All P false x g s p h = h

pub on_answer-told :
    (now : ℕ) (s : Session) (j : Job) (f : Follower)
    → (on_answer now s j f).0
      ≡ told
          (f.gen == s.generation && is_final j.status)
          (result_of now j f.device_name f.label)
          f.gen
          s
unfolding on_answer
on_answer-told now s j f = ground arith

pub on_round_answer-told :
    (now : ℕ) (s : Session) (j : Job) (xs : List Entry) (e : Entry) (ys : List Entry) (r : Round)
    → (on_round_answer now s j xs e ys r).0
      ≡ told
          (r.gen == s.generation && is_final j.status)
          (result_of now j e.device_name r.label)
          r.gen
          s
unfolding on_round_answer
on_round_answer-told now s j xs e ys r = ground arith

pub on_answer-generation :
    (now : ℕ) (s : Session) (j : Job) (f : Follower)
    → (on_answer now s j f).0.generation ≡ s.generation
on_answer-generation now s j f = rw (on_answer-told now s j f) (
    told-generation (f.gen == s.generation && is_final j.status)
      (result_of now j f.device_name f.label) f.gen s)

pub on_round_answer-generation :
    (now : ℕ) (s : Session) (j : Job) (xs : List Entry) (e : Entry) (ys : List Entry) (r : Round)
    → (on_round_answer now s j xs e ys r).0.generation ≡ s.generation
on_round_answer-generation now s j xs e ys r = rw (on_round_answer-told now s j xs e ys r) (
    told-generation (r.gen == s.generation && is_final j.status)
      (result_of now j e.device_name r.label) r.gen s)

module _ (w : World) (xs : List Follower) (f f' : Follower) (ys : List Follower) (s : Session)
    (at : w.singles ≡ xs ++ f ∷ ys) (gen : s.generation ≡ w.session.generation)
    (kept : Kept w.session.generation f f') where
  started-replaced :
      (id : ℕ)
      → started_in w.session.generation w.singles w.rounds id
        ≡ started_in s.generation (xs ++ f' ∷ ys) w.rounds id
  started-replaced id =
      let same : follows w.session.generation id f ≡ follows w.session.generation id f' =
        rw (kept.0, kept.1) refl in
      rw (at, gen, any-replaced (follows w.session.generation id) xs f f' ys same)

  replaced-IsValid :
      All (Own w) s.results
      → IsValid w
      → IsValid (record w { session = s; singles = xs ++ f' ∷ ys })
  replaced-IsValid results v = record {
    own = All-mono (λ x h. sym (started-replaced x.job_id) ∙ h) s.results results;
    shown =
        rw (gen) (All-replaced (Shown w.session.generation) xs f f' ys (rw (at) at v.shown) kept.2);
    shown_rounds = rw (gen) v.shown_rounds;
    asked = v.asked;
  }

abbrev KeptRound : ℕ → Round → Round → Type 0
KeptRound gen r r' = (r'.gen ≡ r.gen) × (r'.entries ≡ r.entries) × ShownRound gen r' × Asked r'

module _ (w : World) (xs : List Round) (r r' : Round) (ys : List Round) (s : Session)
    (at : w.rounds ≡ xs ++ r ∷ ys) (gen : s.generation ≡ w.session.generation)
    (kept : KeptRound w.session.generation r r') where
  started-replaced_round :
      (id : ℕ)
      → started_in w.session.generation w.singles w.rounds id
        ≡ started_in s.generation w.singles (xs ++ r' ∷ ys) id
  started-replaced_round id =
      let same : takes_in w.session.generation id r ≡ takes_in w.session.generation id r' =
        rw (kept.0, kept.1) refl in
      rw (at, gen, any-replaced (takes_in w.session.generation id) xs r r' ys same)

  replaced_round-IsValid :
      All (Own w) s.results → IsValid w → IsValid (record w { session = s; rounds = xs ++ r' ∷ ys })
  replaced_round-IsValid results v = record {
    own = All-mono (λ x h. sym (started-replaced_round x.job_id) ∙ h) s.results results;
    shown = rw (gen) v.shown;
    shown_rounds = rw (gen) (
        All-replaced (ShownRound w.session.generation) xs r r' ys (rw (at) at v.shown_rounds)
          kept.2);
    asked = All-replaced Asked xs r r' ys (rw (at) at v.asked) kept.3;
  }

on_round-KeptRound :
    (s : Session) (r : Round)
    → ShownRound s.generation r
    → Asked r
    → KeptRound s.generation r (on_round s r)
unfolding on_round
on_round-KeptRound s r h (q, o) = elim (Bool-cases (r.gen == s.generation)) [
  | inl same ↦ rw (same) (
    refl,
    refl,
    h,
    (
      All-drop (λ (e : Entry). has e.job.id r.entries ≡ true) 6 r.queue q,
      All-take (λ (e : Entry). has e.job.id r.entries ≡ true) 6 r.queue q,
    ),
  )
  | inr other ↦ rw (other) (refl, refl, h, (q, o))
]

module _ (xs : List Entry) (e : Entry) (ys : List Entry) (r : Round) (at : r.out ≡ xs ++ e ∷ ys)
    (h : Asked r) where
  abbrev Among : Entry → Type 0
  Among d = has d.job.id r.entries ≡ true

  one_Among : Among e
  one_Among = All-at Among xs e ys (rw (at) at h.1)

  rest_Among : All Among (xs ++ ys)
  rest_Among = All-without Among xs e ys (rw (at) at h.1)

  back_Among : All Among (r.queue ++ e ∷ [])
  back_Among = All-append Among r.queue (e ∷ []) h.0 (one_Among, tt)

  on_round_failure-KeptRound :
      (gen : ℕ) → ShownRound gen r → KeptRound gen r (on_round_failure xs e ys r)
  unfolding on_round_failure
  on_round_failure-KeptRound gen k = (refl, refl, k, (back_Among, rest_Among))

  on_round_answer-KeptRound :
      (now : ℕ) (s : Session) (j : Job)
      → ShownRound s.generation r
      → KeptRound s.generation r (on_round_answer now s j xs e ys r).1
  unfolding on_round_answer
  on_round_answer-KeptRound now s j k = elim (Bool-cases (r.gen == s.generation)) [
    | inr other ↦ rw (other) (refl, refl, k, (h.0, rest_Among))
    | inl same ↦ elim (Bool-cases (is_final j.status)) [
      | inl final ↦ rw (same, final) (refl, refl, k, (h.0, rest_Among))
      | inr more ↦ rw (same, more) (refl, refl, k, (back_Among, rest_Among))
    ]
  ]

on_round_settled-KeptRound :
    (now : ℕ) (s : Session) (r : Round)
    → ShownRound s.generation r
    → Asked r
    → KeptRound s.generation r (on_round_settled now s r)
unfolding on_round_settled
on_round_settled-KeptRound now s r h a = elim (Bool-cases (r.gen == s.generation)) [
  | inr other ↦ rw (other) (refl, refl, h, a)
  | inl same ↦ elim (Bool-cases (length r.queue == 0)) [
    | inl all ↦ rw (same, all) (refl, refl, (h.0, λ e. ground arith), a)
    | inr some_left ↦ elim (Bool-cases (leb max_wait_ms (now - r.started))) [
      | inl late ↦ rw (same, some_left, late) (refl, refl, (h.0, λ e. ground arith), a)
      | inr early ↦ rw (same, some_left, early) (refl, refl, (h.0, λ e. ground arith), a)
    ]
  ]
]

Own-mono :
    (g : ℕ) (f : Follower) (fs : List Follower) (rs : List Round) (id : ℕ)
    → started_in g fs rs id ≡ true
    → started_in g (f ∷ fs) rs id ≡ true
Own-mono g f fs rs id h = ground arith

Own-mono_round :
    (g : ℕ) (fs : List Follower) (r : Round) (rs : List Round) (id : ℕ)
    → started_in g fs rs id ≡ true
    → started_in g fs (r ∷ rs) id ≡ true
Own-mono_round g fs r rs id h = ground arith

all_has : (es : List Entry) → All (λ (e : Entry). has e.job.id es ≡ true) es
all_has [] = tt
all_has (e ∷ es) = (
  ground arith,
  All-mono (λ (d : Entry) (h : has d.job.id es ≡ true). ground arith) es (all_has es),
)

answered-Own :
    (w : World) (xs : List Follower) (f : Follower) (ys : List Follower) (id : ℕ)
    → w.singles ≡ xs ++ f ∷ ys
    → id ≡ f.job.id
    → f.gen ≡ w.session.generation
    → started_in w.session.generation w.singles w.rounds id ≡ true
answered-Own w xs f ys id at same now =
    rw (at, any-at (follows w.session.generation id) xs f ys (ground arith)) refl

answered_round-Own :
    (w : World) (xs : List Round) (r : Round) (ys : List Round) (id : ℕ)
    → w.rounds ≡ xs ++ r ∷ ys
    → has id r.entries ≡ true
    → r.gen ≡ w.session.generation
    → started_in w.session.generation w.singles w.rounds id ≡ true
answered_round-Own w xs r ys id at among now =
    let here : any (takes_in w.session.generation id) (xs ++ r ∷ ys) ≡ true =
      any-at (takes_in w.session.generation id) xs r ys (ground arith) in
    rw (at) (ground arith)

dismissed-Shown :
    (gen : ℕ) (fs : List Follower) → All (Shown gen) fs → All (Shown (gen + 1)) (map dismissed fs)
dismissed-Shown gen [] h = tt
dismissed-Shown gen (f ∷ fs) ((le, k), h) =
    ((omega arith, λ e. absurd (ground arith)), dismissed-Shown gen fs h)

dismissed_round-ShownRound :
    (gen : ℕ) (rs : List Round)
    → All (ShownRound gen) rs
    → All (ShownRound (gen + 1)) (map dismissed_round rs)
dismissed_round-ShownRound gen [] h = tt
dismissed_round-ShownRound gen (r ∷ rs) ((le, k), h) =
    ((omega arith, λ e. absurd (ground arith)), dismissed_round-ShownRound gen rs h)

dismissed_round-Asked : (rs : List Round) → All Asked rs → All Asked (map dismissed_round rs)
dismissed_round-Asked [] h = tt
dismissed_round-Asked (r ∷ rs) (a, h) = (a, dismissed_round-Asked rs h)

Step-IsValid : {w v : World} → Step w v → IsValid w → IsValid v
unfolding track_job track_round reset_job_results
Step-IsValid (passes w n) v = record {
  own = v.own;
  shown = v.shown;
  shown_rounds = v.shown_rounds;
  asked = v.asked;
}
Step-IsValid (starts w j name label) v = record {
  own =
      All-mono
        (λ x.
          Own-mono w.session.generation (track_job w.clock w.session j name label) w.singles
            w.rounds x.job_id)
        w.session.results v.own;
  shown = ((omega arith, λ e. refl), v.shown);
  shown_rounds = v.shown_rounds;
  asked = v.asked;
}
Step-IsValid (starts_round w d e entries label) v = record {
  own =
      All-mono
        (λ x.
          Own-mono_round w.session.generation w.singles
            (track_round w.clock w.session (d ∷ e ∷ entries) label) w.rounds x.job_id)
        w.session.results v.own;
  shown = v.shown;
  shown_rounds = ((omega arith, λ e. refl), v.shown_rounds);
  asked = ((all_has (d ∷ e ∷ entries), tt), v.asked);
}
Step-IsValid (fires w xs f ys due at p l) v =
    replaced-IsValid w xs f (on_timeout w.session f) ys w.session at refl
      (on_timeout-Kept w.session f
        (All-at (Shown w.session.generation) xs f ys (rw (at) at v.shown)))
      v.own v
Step-IsValid (fails w xs f ys at p) v =
    replaced-IsValid w xs f (on_failure w.clock f) ys w.session at refl
      (on_failure-Kept w.clock w.session.generation f
        (All-at (Shown w.session.generation) xs f ys (rw (at) at v.shown)))
      v.own v
Step-IsValid (answers w xs f ys j at p same) v =
    let told_so = on_answer-told w.clock w.session j f in
    let x = result_of w.clock j f.device_name f.label in
    let b = f.gen == w.session.generation && is_final j.status in
    replaced-IsValid w xs f (on_answer w.clock w.session j f).1 ys
      (on_answer w.clock w.session j f).0 at (on_answer-generation w.clock w.session j f)
      (on_answer-Kept w.clock w.session j f
        (All-at (Shown w.session.generation) xs f ys (rw (at) at v.shown)))
      (rw (told_so)
        (told-All (Own w) b x f.gen w.session (answered-Own w xs f ys j.id at same) v.own))
      v
Step-IsValid (fires_round w xs r ys due at p l) v =
    replaced_round-IsValid w xs r (on_round w.session r) ys w.session at refl
      (on_round-KeptRound w.session r
        (All-at (ShownRound w.session.generation) xs r ys (rw (at) at v.shown_rounds))
        (All-at Asked xs r ys (rw (at) at v.asked)))
      v.own v
Step-IsValid (answers_round w xs r ys es e fs j at p out same) v =
    let told_so = on_round_answer-told w.clock w.session j es e fs r in
    let x = result_of w.clock j e.device_name r.label in
    let b = r.gen == w.session.generation && is_final j.status in
    let asked = All-at Asked xs r ys (rw (at) at v.asked) in
    let among : has j.id r.entries ≡ true = rw (same) (one_Among es e fs r out asked) in
    replaced_round-IsValid w xs r (on_round_answer w.clock w.session j es e fs r).1 ys
      (on_round_answer w.clock w.session j es e fs r).0 at
      (on_round_answer-generation w.clock w.session j es e fs r)
      (on_round_answer-KeptRound es e fs r out asked w.clock w.session j
        (All-at (ShownRound w.session.generation) xs r ys (rw (at) at v.shown_rounds)))
      (rw (told_so)
        (told-All (Own w) b x r.gen w.session (answered_round-Own w xs r ys j.id at among) v.own))
      v
Step-IsValid (fails_round w xs r ys es e fs at p out) v =
    replaced_round-IsValid w xs r (on_round_failure es e fs r) ys w.session at refl
      (on_round_failure-KeptRound es e fs r out (All-at Asked xs r ys (rw (at) at v.asked))
        w.session.generation
        (All-at (ShownRound w.session.generation) xs r ys (rw (at) at v.shown_rounds)))
      v.own v
Step-IsValid (settles_round w xs r ys at p out) v =
    replaced_round-IsValid w xs r (on_round_settled w.clock w.session r) ys w.session at refl
      (on_round_settled-KeptRound w.clock w.session r
        (All-at (ShownRound w.session.generation) xs r ys (rw (at) at v.shown_rounds))
        (All-at Asked xs r ys (rw (at) at v.asked)))
      v.own v
Step-IsValid (signs_out w) v = record {
  own = tt;
  shown = dismissed-Shown w.session.generation w.singles v.shown;
  shown_rounds = dismissed_round-ShownRound w.session.generation w.rounds v.shown_rounds;
  asked = dismissed_round-Asked w.rounds v.asked;
}

Reach-IsValid : {w : World} → Reach loaded w → IsValid w
Reach-IsValid here = record { own = tt; shown = tt; shown_rounds = tt; asked = tt }
Reach-IsValid (next r st) = Step-IsValid st (Reach-IsValid r)

-- However timeouts, answers, failures and sign-outs follow each other, every result that is kept is
-- of a job that was started since the last sign-out, so is every job with a toast, and no job is of
-- a later generation than the present one.
pub job_results_private :
    (w : World)
    → Reach loaded w
    → All (Own w) w.session.results
      × All (Shown w.session.generation) w.singles
      × All (ShownRound w.session.generation) w.rounds
job_results_private w r = let v = Reach-IsValid r in (v.own, v.shown, v.shown_rounds)
