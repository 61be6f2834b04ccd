-- ===== src/Track/Round.antt =====
-- `trackJobs`, many jobs with one toast: frontend/src/ui/toast.tsx, lines 145 to 221. Between two
-- requests nothing happens but what is a function here; which request ends first is up to the
-- network.
use rmm_rxf_sys_de.Base.{
  ℕ, ◌+◌, ◌-◌, not, String, Option, none, some, List, [], ◌∷◌, ◌++◌, map, take, drop, length, ltb,
  leb, ◌==◌, ◌⊎◌, inl, inr, if◌then◌else◌,
}
use rmm_rxf_sys_de.Base.Text.{decimal, parts, join}
use rmm_rxf_sys_de.Fleet.Jobs.{Job, is_final, is_done}
use rmm_rxf_sys_de.Track.{
  Session, Toast, loading, success, warning, error, Phase, waiting, asking, over, Follower,
  track_job, job_path, push_result, result_of, max_wait_ms,
}

abbrev pub bulk_poll_ms : ℕ
bulk_poll_ms = 3000

abbrev pub bulk_poll_batch : ℕ
bulk_poll_batch = 6

pub record Entry : Type 0 where
  pub job : Job
  pub device_name : String

pub record Round : Type 0 where
  pub entries : List Entry
  pub label : String
  pub queue : List Entry
  -- the entries of the batch whose request has not ended
  pub out : List Entry
  pub failed : List Entry
  pub finished : ℕ
  pub started : ℕ
  pub gen : ℕ
  pub phase : Phase
  -- the toast under the id of the first job
  pub toast : Option Toast

abbrev progress : (finished total failures : ℕ) → String
progress finished total failures = parts (
    decimal finished
    ∷ " von "
    ∷ decimal total
    ∷ " fertig"
    ∷ (if failures == 0 then "" else parts (" · " ∷ decimal failures ∷ " fehlgeschlagen" ∷ []))
    ∷ [])

abbrev running_toast : String → (finished total failures : ℕ) → Toast
running_toast label finished total failures = record {
  kind = loading;
  title = parts (label ∷ " läuft auf " ∷ decimal total ∷ " Geräten" ∷ []);
  description = progress finished total failures;
  duration = none;
  action = none;
}

-- Two jobs or more.
unfoldable pub track_round : ℕ → Session → List Entry → String → Round
track_round now s entries label = record {
  entries = entries;
  label = label;
  queue = entries;
  out = [];
  failed = [];
  finished = 0;
  started = now;
  gen = s.generation;
  phase = waiting (now + bulk_poll_ms);
  toast = some (running_toast label 0 (length entries) 0);
}

-- Nothing for no job, and one job is followed by itself.
unfoldable pub track_jobs : ℕ → Session → List Entry → String → Option (Follower ⊎ Round)
track_jobs now s [] label = none
track_jobs now s (e ∷ []) label = some (inl (track_job now s e.job e.device_name label))
track_jobs now s (e ∷ f ∷ entries) label = some (inr (track_round now s (e ∷ f ∷ entries) label))

abbrev first_path : List Entry → Option String
first_path [] = none
first_path (e ∷ es) = some (job_path e.job.device_id e.job.id)

-- `conclude`
abbrev pub verdict : String → ℕ → List Entry → Toast
verdict label total [] = record {
  kind = success;
  title = parts (label ∷ " abgeschlossen" ∷ []);
  description = parts (decimal total ∷ " Geräte" ∷ []);
  duration = some 6000;
  action = none;
}
verdict label total (f ∷ failed) = record {
  kind = error;
  title = parts (
      label
      ∷ ": "
      ∷ decimal (length (f ∷ failed))
      ∷ " von "
      ∷ decimal total
      ∷ " fehlgeschlagen"
      ∷ []);
  description = parts (
      join ", " (take 3 (map (λ (e : Entry). e.device_name) (f ∷ failed)))
      ∷ (if ltb 3 (length (f ∷ failed)) then " …" else "")
      ∷ []);
  duration = some 12000;
  action = first_path (f ∷ failed);
}

-- The timeout fires: `round`.
unfoldable pub on_round : Session → Round → Round
on_round s r =
    if r.gen == s.generation
    then record r {
      queue = drop bulk_poll_batch r.queue;
      out = take bulk_poll_batch r.queue;
      phase = asking;
    }
    else record r { phase = over }

-- The server answers for `e`, which stands between `xs` and `ys`.
unfoldable pub on_round_answer :
    (now : ℕ) → Session → Job → List Entry → Entry → List Entry → Round → Session × Round
on_round_answer now s j xs e ys r =
    if not (r.gen == s.generation)
    then (s, record r { out = xs ++ ys })
    else (if not (is_final j.status)
        then (s, record r { out = xs ++ ys; queue = r.queue ++ e ∷ [] })
        else (
          push_result (result_of now j e.device_name r.label) r.gen s,
          record r {
            out = xs ++ ys;
            finished = r.finished + 1;
            failed =
                r.failed
                ++ (if is_done j.status
                    then []
                    else record { job = j; device_name = e.device_name } ∷ []);
          },
        ))

-- The request for `e` fails.
unfoldable pub on_round_failure : List Entry → Entry → List Entry → Round → Round
on_round_failure xs e ys r = record r { out = xs ++ ys; queue = r.queue ++ e ∷ [] }

abbrev late_toast : String → ℕ → Toast
late_toast label left = record {
  kind = warning;
  title = parts (label ∷ ": " ∷ decimal left ∷ " Geräte noch ohne Ergebnis" ∷ []);
  description = "Das Ergebnis steht im Auftragsverlauf der Geräte.";
  duration = some 10000;
  action = none;
}

-- All requests of the batch have ended.
unfoldable pub on_round_settled : (now : ℕ) → Session → Round → Round
on_round_settled now s r =
    if not (r.gen == s.generation)
    then record r { phase = over }
    else (if length r.queue == 0
        then record r { phase = over; toast = some (verdict r.label (length r.entries) r.failed) }
        else (if leb max_wait_ms (now - r.started)
            then record r { phase = over; toast = some (late_toast r.label (length r.queue)) }
            else record r {
              phase = waiting (now + bulk_poll_ms);
              toast = some (running_toast r.label r.finished (length r.entries) (length r.failed));
            }))
