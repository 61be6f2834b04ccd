-- ===== src/Track.antt =====
-- The jobs that this browser tab started, followed to their end: frontend/src/ui/toast.tsx. The
-- module's variables are a record, `Session`; each job under watch has a `Follower`, and jobs
-- started together have one `Round`. A toast of the library is the value that was shown last under
-- its id, `none` once it is dismissed. Times are milliseconds.
pub mod Round
pub mod Steps
pub mod Owned
pub mod Results
pub mod Ledger
pub mod Accounts
pub mod Polls
mod Tests
use Prim.Native.String
use rmm_rxf_sys_de.Base.{
  ℕ, ◌+◌, ◌-◌, ◌*◌, ◌/◌, Bool, not, String, Option, none, some, List, [], ◌∷◌, filter, take, ltb,
  ◌==◌, if◌then◌else◌,
}
use rmm_rxf_sys_de.Base.Int.{ℤ, pos, negsuc}
use rmm_rxf_sys_de.Base.Text.{decimal, parts}
use rmm_rxf_sys_de.Fleet.Jobs.{Job, is_final}
use rmm_rxf_sys_de.JobStream.{JobStatus, done, timeout}

pub record JobResult : Type 0 where
  pub job_id : ℕ
  pub device_id : ℕ
  pub device_name : String
  pub label : String
  pub status : JobStatus
  pub exit_code : Option ℤ
  -- in seconds
  pub finished_at : ℕ

abbrev pub max_results : ℕ
max_results = 20

abbrev pub poll_ms : ℕ
poll_ms = 2000

abbrev pub max_wait_ms : ℕ
max_wait_ms = 2 * 60 * 60 * 1000

-- `results` and `generation`
pub record Session : Type 0 where
  pub generation : ℕ
  pub results : List JobResult

unfoldable pub reset_job_results : Session → Session
reset_job_results s = record { generation = s.generation + 1; results = [] }

abbrev pub is_other : JobResult → JobResult → Bool
is_other r x = not (x.job_id == r.job_id)

unfoldable pub push_result : JobResult → ℕ → Session → Session
push_result r gen s =
    if gen == s.generation
    then record s { results = take max_results (r ∷ filter (is_other r) s.results) }
    else s

pub data ToastKind : Type 0 where
  loading success warning error : ToastKind

pub record Toast : Type 0 where
  pub kind : ToastKind
  pub title : String
  pub description : String
  -- `none` for `Infinity`
  pub duration : Option ℕ
  -- where the action "Ausgabe" leads
  pub action : Option String

pub data Phase : Type 0 where
  -- until the timeout at that time
  waiting : ℕ → Phase
  asking : Phase
  over : Phase

pub record Follower : Type 0 where
  pub job : Job
  pub device_name : String
  pub label : String
  pub started : ℕ
  pub gen : ℕ
  pub phase : Phase
  pub toast : Option Toast

abbrev pub job_path : ℕ → ℕ → String
job_path device_id job_id =
    parts ("/devices/" ∷ decimal device_id ∷ "?tab=jobs&job=" ∷ decimal job_id ∷ [])

abbrev int_text : ℤ → String
int_text (pos n) = decimal n
int_text (negsuc n) = parts ("-" ∷ decimal (n + 1) ∷ [])

abbrev exit_text : Option ℤ → String
exit_text none = ""
exit_text (some code) = parts (" · Exit " ∷ int_text code ∷ [])

unfoldable pub track_job : (now : ℕ) → Session → Job → (device_name label : String) → Follower
track_job now s job device_name label = record {
  job = job;
  device_name = device_name;
  label = label;
  started = now;
  gen = s.generation;
  phase = waiting (now + poll_ms);
  toast = some (record {
    kind = loading;
    title = parts (label ∷ " läuft" ∷ []);
    description = device_name;
    duration = none;
    action = some (job_path job.device_id job.id);
  });
}

abbrev pub result_of : ℕ → Job → (device_name label : String) → JobResult
result_of now j device_name label = record {
  job_id = j.id;
  device_id = j.device_id;
  device_name = device_name;
  label = label;
  status = j.status;
  exit_code = j.exit_code;
  finished_at = now / 1000;
}

abbrev detail : Follower → Job → String
detail f j = parts (f.device_name ∷ exit_text j.exit_code ∷ [])

abbrev shown : Follower → ToastKind → String → String → ℕ → Toast
shown f kind rest description duration = record {
  kind = kind;
  title = parts (f.label ∷ rest ∷ []);
  description = description;
  duration = some duration;
  action = some (job_path f.job.device_id f.job.id);
}

abbrev verdict : Follower → Job → JobStatus → Toast
verdict f j done = shown f success " abgeschlossen" (detail f j) 6000
verdict f j timeout = shown f error ": Zeitüberschreitung" f.device_name 10000
verdict f j _ = shown f error " fehlgeschlagen" (detail f j) 10000

-- The timeout fires: `poll`.
unfoldable pub on_timeout : Session → Follower → Follower
on_timeout s f =
    if f.gen == s.generation then record f { phase = asking } else record f { phase = over }

-- The server answers with the job.
unfoldable pub on_answer : (now : ℕ) → Session → Job → Follower → Session × Follower
on_answer now s j f =
    if not (f.gen == s.generation)
    then (s, record f { phase = over })
    else (if is_final j.status
        then (
          push_result (result_of now j f.device_name f.label) f.gen s,
          record f { phase = over; toast = some (verdict f j j.status) },
        )
        else (if ltb (now - f.started) max_wait_ms
            then (s, record f { phase = waiting (now + poll_ms) })
            else (s, record f { phase = over; toast = none })))

-- The request fails.
unfoldable pub on_failure : (now : ℕ) → Follower → Follower
on_failure now f =
    if ltb (now - f.started) max_wait_ms
    then record f { phase = waiting (now + poll_ms * 3) }
    else record f { phase = over }
