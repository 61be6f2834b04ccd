-- ===== src/Tasks.antt =====
-- What the overview asks to be done: frontend/src/overviewTasks.ts.
pub mod Build
pub mod Laws
mod Tests
use rmm_rxf_sys_de.Base.{
  ℕ, ◌*◌, ◌-◌, ◌/◌, Bool, String, Option, none, some, List, [], ◌∷◌, map, ◌==◌, leb, ltb, length,
  take, or_else, count, if◌then◌else◌,
}
use rmm_rxf_sys_de.Base.Text.{decimal, parts, join}
use rmm_rxf_sys_de.Fleet.Types.{Device, Disk}
use rmm_rxf_sys_de.Fleet.Status.{has_problem}

pub data TaskSeverity : Type 0 where
  crit warn info : TaskSeverity

-- The pages that a task can lead to.
pub data PageId : Type 0 where
  devices patches : PageId

pub data TaskTarget : Type 0 where
  to_device : ℕ → TaskTarget
  to_page : PageId → Option String → TaskTarget

pub record OverviewTask : Type 0 where
  pub id : String
  pub severity : TaskSeverity
  pub tag : String
  pub title : String
  pub why : String
  pub target : TaskTarget
  pub action_label : String

abbrev pub scan_stale_days : ℕ
scan_stale_days = 3

abbrev pub day : ℕ
day = 86400

abbrev pub severity_order : TaskSeverity → ℕ
severity_order crit = 0
severity_order warn = 1
severity_order info = 2

-- `names`, whose limit is 3 wherever it is called.
unfoldable pub names : List Device → String
names ds =
    let shown = map (λ (d : Device). d.hostname) (take 3 ds) in
    let rest = length ds - length shown in
    if ltb 0 rest
    then parts (join ", " shown ∷ " und " ∷ decimal rest ∷ " weitere" ∷ [])
    else join ", " shown

-- The first of the fullest disks.
unfoldable pub fuller : Option Disk → List Disk → Option Disk
fuller a [] = a
fuller none (x ∷ xs) = fuller (some x) xs
fuller (some a) (x ∷ xs) = fuller (some (if ltb a.used_pct x.used_pct then x else a)) xs

-- The free bytes of a disk, times the number of millionths of a percent in a whole: the agent
-- reports the used bytes, or they follow from the used share. No less than 0.
abbrev free_share : Disk → ℕ
free_share disk = disk.total_b * 100000000 - or_else (share_of disk) (disk.used_pct * disk.total_b)
  where
    share_of : Disk → Option ℕ
    share_of disk = elim (disk.used_b) [ none ↦ none | some used ↦ some (used * 100000000) ]

abbrev gigabyte : ℕ
gigabyte = 1024 * 1024 * 1024

-- `Intl.NumberFormat` with one decimal, of a fraction given by its numerator and denominator.
module _ (format : ℕ → ℕ → String) where
  -- Used bytes are known exactly or as a share, so the gigabytes are a fraction.
  abbrev amount : ℕ → String
  amount free =
      let whole = 100000000 * gigabyte in
      if leb (1024 * whole) free
      then parts (format free (1024 * whole) ∷ " TB" ∷ [])
      else parts (format free whole ∷ " GB" ∷ [])

  abbrev note : Option Disk → String
  note none = "Ab 90 % wird es kritisch — aufräumen, bevor Updates scheitern."
  note (some disk) =
      if disk.total_b == 0
      then "Ab 90 % wird es kritisch — aufräumen, bevor Updates scheitern."
      else parts (
          "Noch "
          ∷ amount (free_share disk)
          ∷ " frei auf "
          ∷ disk.mount
          ∷ ". Ab 90 % wird es kritisch."
          ∷ [])

  unfoldable pub free_space_note : Device → String
  free_space_note d = note (fuller none (or_else d.heartbeat.disks []))

-- `Math.floor((now - ts) / DAY)`, of a time in the past
unfoldable pub relative_days : ℕ → ℕ → ℕ
relative_days ts now = (now - ts) / day

pub data VerdictSeverity : Type 0 where
  of_tasks : TaskSeverity → VerdictSeverity
  ok : VerdictSeverity

pub record Verdict : Type 0 where
  pub text : String
  pub severity : VerdictSeverity

abbrev pub is_severity : TaskSeverity → OverviewTask → Bool
is_severity s t = severity_order t.severity == severity_order s

unfoldable pub verdict : List Device → List OverviewTask → Verdict
verdict ds tasks =
    let urgent = count (is_severity crit) tasks in
    let soon = count (is_severity warn) tasks in
    let problems = count has_problem ds in
    if length ds == 0
    then record { text = "Noch kein Gerät angebunden."; severity = of_tasks info }
    else (if ltb 0 urgent
        then record {
          text =
              if urgent == 1
              then "1 Punkt braucht heute Aufmerksamkeit."
              else parts (decimal urgent ∷ " Punkte brauchen heute Aufmerksamkeit." ∷ []);
          severity = of_tasks crit;
        }
        else (if ltb 0 soon
            then record {
              text =
                  if soon == 1
                  then "1 Punkt sollte diese Woche weg."
                  else parts (decimal soon ∷ " Punkte sollten diese Woche weg." ∷ []);
              severity = of_tasks warn;
            }
            else (if problems == 0
                then record { text = "Nichts Dringendes — die Flotte läuft."; severity = ok }
                else record { text = "Keine dringenden Punkte."; severity = ok })))
