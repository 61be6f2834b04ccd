-- ===== src/Patches/Notices.antt =====
-- What the page of updates says on scans and installations: frontend/src/pages/patches/PatchesPage.tsx,
-- lines 390 to 515. What a dialog says besides its title is left out.
use rmm_rxf_sys_de.Base.{
  ℕ, Bool, false, not, String, Option, none, some, List, [], ◌∷◌, ◌++◌, map, find, count, length,
  ltb, ◌==◌, if◌then◌else◌,
}
use rmm_rxf_sys_de.Base.Text.{decimal, parts, join}
use rmm_rxf_sys_de.Fleet.Types.{Device}
use rmm_rxf_sys_de.Alerts.Report.{
  Thrown, api_error, other_error, Tone, success, info, warning, error,
}
use rmm_rxf_sys_de.Bulk.Run.{Failure}
use rmm_rxf_sys_de.Bulk.Selection.{Skipped, reachable}
use rmm_rxf_sys_de.Palette.Label.{device_label}
use rmm_rxf_sys_de.Patches.Orders.{Work, scan, install, queue, Order, Round}

-- A call of `notify`.
pub record Notice : Type 0 where
  pub tone : Tone
  pub title : String
  pub detail : Option String
  pub error : Option Thrown

abbrev pub skipped_text : List Skipped → String
skipped_text skipped =
    join ", " (map (λ (k : Skipped). parts (decimal k.count ∷ " " ∷ k.reason ∷ [])) skipped)

abbrev pub forbidden_text : String
forbidden_text = "Prüfen und Installieren ist Administratoren und Technikern vorbehalten."

unfoldable pub is_forbidden : Thrown → Bool
is_forbidden (api_error status) = status == 403
is_forbidden other_error = false

abbrev pub is_real : Failure Device Thrown → Bool
is_real f = not (is_forbidden f.error)

abbrev failures_title : String → Failure Device Thrown → (failed total : ℕ) → String
failures_title what real failed total =
    if total == 1
    then parts (what ∷ " auf " ∷ real.item.hostname ∷ " nicht gestartet" ∷ [])
    else parts (what ∷ ": " ∷ decimal failed ∷ " von " ∷ decimal total ∷ " nicht gestartet" ∷ [])

abbrev failure_notice : String → (failed total : ℕ) → Option (Failure Device Thrown) → Notice
failure_notice what failed total none = record {
  tone = warning;
  title = parts (what ∷ " nicht gestartet" ∷ []);
  detail = some forbidden_text;
  error = none;
}
failure_notice what failed total (some real) = record {
  tone = error;
  title = failures_title what real failed total;
  detail = none;
  error = some real.error;
}

-- At most one notice, for all failures.
unfoldable pub report_failures : String → List (Failure Device Thrown) → (total : ℕ) → List Notice
report_failures what [] total = []
report_failures what (f ∷ failed) total =
    failure_notice what (length (f ∷ failed)) total (find is_real (f ∷ failed)) ∷ []

abbrev refused_title : Work → List Device → String
refused_title scan (d ∷ []) = parts (d.hostname ∷ " ist nicht verbunden" ∷ [])
refused_title scan _ = "Kein ausgewähltes Gerät ist verbunden"
refused_title install _ = "Auf keinem ausgewählten Gerät lässt sich etwas installieren"
refused_title queue _ = "Auf keinem ausgewählten Gerät ist etwas offen"

abbrev refused_detail : Order → String
refused_detail o = elim (o.work) [
  | scan ↦ "Eine Prüfung braucht eine offene Agent-Verbindung."
  | _ ↦ skipped_text o.plan.skipped
]

-- No device that it applies to.
abbrev pub refused : Order → Notice
refused o = record {
  tone = warning;
  title = refused_title o.work o.list;
  detail = some (refused_detail o);
  error = none;
}

-- `fmt` stands for the format of numbers.
module _ (fmt : ℕ → String) where
  unfoldable pub on_devices : ℕ → String
  on_devices n = parts (fmt n ∷ " " ∷ (if n == 1 then "Gerät" else "Geräten") ∷ [])

  abbrev which : List Device → String
  which (d ∷ []) = d.hostname
  which ds = on_devices (length ds)

  abbrev scan_detail : List Skipped → String
  scan_detail [] = "Das Ergebnis erscheint hier, sobald die Agents es melden."
  scan_detail skipped = parts (
      "Das Ergebnis erscheint hier, sobald die Agents es melden. Übersprungen: "
      ∷ skipped_text skipped
      ∷ "."
      ∷ [])

  abbrev queue_detail : List Device → Option String
  queue_detail targets =
      if ltb 0 (count (λ d. not (reachable d)) targets)
      then some "Offline-Geräte installieren beim nächsten Online-Gehen."
      else none

  -- What is said on the devices for which it worked; nothing where it worked for none.
  abbrev started_notice : Order → List Device → List Notice
  started_notice o [] = []
  started_notice o (d ∷ ok) = elim (o.work) [
    | scan ↦
        record {
          tone = info;
          title = parts ("Prüfung auf " ∷ which (d ∷ ok) ∷ " gestartet" ∷ []);
          detail = some (scan_detail o.plan.skipped);
          error = none;
        }
        ∷ []
    | install ↦ []
    | queue ↦
        record {
          tone = success;
          title = parts ("Updates auf " ∷ which (d ∷ ok) ∷ " vorgemerkt" ∷ []);
          detail = queue_detail o.plan.targets;
          error = none;
        }
        ∷ []
  ]

  abbrev what_text : Work → String
  what_text scan = "Prüfung"
  what_text install = "Installation"
  what_text queue = "Vormerkung"

  unfoldable pub report : Round → List Notice
  report r =
      started_notice r.order r.bulk.ok
      ++ report_failures (what_text r.order.work) r.bulk.failed (length r.order.plan.targets)

-- The title of the dialog; `lower` stands for `toLowerCase`.
module _ (lower : String → String) (fmt : ℕ → String) where
  abbrev named : List Device → List String → String
  named (d ∷ []) dups = device_label lower d dups
  named ds dups = parts (fmt (length ds) ∷ " Geräten" ∷ [])

  unfoldable pub question : Order → List String → String
  question o dups = elim (o.work) [
    | scan ↦ ""
    | install ↦
        parts ("Sicherheitsupdates auf " ∷ named o.plan.targets dups ∷ " installieren?" ∷ [])
    | queue ↦ parts ("Updates auf " ∷ named o.plan.targets dups ∷ " vormerken?" ∷ [])
  ]
