-- ===== src/Track/Steps.antt =====
-- All orders in which timeouts fire, requests end and accounts change: frontend/src/ui/toast.tsx.
use rmm_rxf_sys_de.Base.{ℕ, ◌+◌, ◌≤◌, ◌≡◌, none, List, [], ◌∷◌, ◌++◌, map, String}
use rmm_rxf_sys_de.Fleet.Jobs.{Job}
use rmm_rxf_sys_de.Track.{
  Session, Follower, waiting, asking, reset_job_results, track_job, on_timeout, on_answer,
  on_failure,
}
use rmm_rxf_sys_de.Track.Round.{
  Entry, Round, track_round, on_round, on_round_answer, on_round_failure, on_round_settled,
}

pub record World : Type 0 where
  pub clock : ℕ
  pub session : Session
  pub singles : List Follower
  pub rounds : List Round

abbrev pub loaded : World
loaded = record {
  clock = 0;
  session = record { generation = 0; results = [] };
  singles = [];
  rounds = [];
}

-- `toast.dismiss()` takes every toast away.
abbrev pub dismissed : Follower → Follower
dismissed f = record f { toast = none }

abbrev pub dismissed_round : Round → Round
dismissed_round r = record r { toast = none }

abbrev pub sign_out : World → World
sign_out w = record w {
  session = reset_job_results w.session;
  singles = map dismissed w.singles;
  rounds = map dismissed_round w.rounds;
}

-- The server answers for the job that it was asked for.
pub data Step : World → World → Type 0 where
  passes : (w : World) (n : ℕ) → Step w (record w { clock = w.clock + n })
  starts :
      (w : World) (j : Job) (name label : String)
      → Step w (record w { singles = track_job w.clock w.session j name label ∷ w.singles })
  starts_round :
      (w : World) (d e : Entry) (entries : List Entry) (label : String)
      → Step w
          (record w { rounds = track_round w.clock w.session (d ∷ e ∷ entries) label ∷ w.rounds })
  fires :
      (w : World) (xs : List Follower) (f : Follower) (ys : List Follower) (due : ℕ)
      → w.singles ≡ xs ++ f ∷ ys
      → f.phase ≡ waiting due
      → due ≤ w.clock
      → Step w (record w { singles = xs ++ on_timeout w.session f ∷ ys })
  answers :
      (w : World) (xs : List Follower) (f : Follower) (ys : List Follower) (j : Job)
      → w.singles ≡ xs ++ f ∷ ys
      → f.phase ≡ asking
      → j.id ≡ f.job.id
      → Step w (record w {
        session = (on_answer w.clock w.session j f).0;
        singles = xs ++ (on_answer w.clock w.session j f).1 ∷ ys;
      })
  fails :
      (w : World) (xs : List Follower) (f : Follower) (ys : List Follower)
      → w.singles ≡ xs ++ f ∷ ys
      → f.phase ≡ asking
      → Step w (record w { singles = xs ++ on_failure w.clock f ∷ ys })
  fires_round :
      (w : World) (xs : List Round) (r : Round) (ys : List Round) (due : ℕ)
      → w.rounds ≡ xs ++ r ∷ ys
      → r.phase ≡ waiting due
      → due ≤ w.clock
      → Step w (record w { rounds = xs ++ on_round w.session r ∷ ys })
  answers_round :
      (w : World) (xs : List Round) (r : Round) (ys : List Round) (es : List Entry) (e : Entry)
      (fs : List Entry) (j : Job)
      → w.rounds ≡ xs ++ r ∷ ys
      → r.phase ≡ asking
      → r.out ≡ es ++ e ∷ fs
      → j.id ≡ e.job.id
      → Step w (record w {
        session = (on_round_answer w.clock w.session j es e fs r).0;
        rounds = xs ++ (on_round_answer w.clock w.session j es e fs r).1 ∷ ys;
      })
  fails_round :
      (w : World) (xs : List Round) (r : Round) (ys : List Round) (es : List Entry) (e : Entry)
      (fs : List Entry)
      → w.rounds ≡ xs ++ r ∷ ys
      → r.phase ≡ asking
      → r.out ≡ es ++ e ∷ fs
      → Step w (record w { rounds = xs ++ on_round_failure es e fs r ∷ ys })
  settles_round :
      (w : World) (xs : List Round) (r : Round) (ys : List Round)
      → w.rounds ≡ xs ++ r ∷ ys
      → r.phase ≡ asking
      → r.out ≡ []
      → Step w (record w { rounds = xs ++ on_round_settled w.clock w.session r ∷ ys })
  signs_out : (w : World) → Step w (sign_out w)

pub data Reach (w : World) : World → Type 0 where
  here : Reach w w
  next : {u v : World} → Reach w u → Step u v → Reach w v
