-- ===== src/Tasks/Build.antt =====
-- `buildTasks`: frontend/src/overviewTasks.ts, lines 87 to 227. The texts of the page are German.
use rmm_rxf_sys_de.Base.{
  ℕ, ◌+◌, ◌*◌, ◌-◌, ◌/◌, Bool, not, ◌&&◌, ◌||◌, String, Option, none, some, List, [], ◌∷◌, ◌++◌,
  map, ◌==◌, leb, ltb, length, filter, or_else, is_some, sum_of, if◌then◌else◌, compare, Ordering,
}
use rmm_rxf_sys_de.Base.Sort.{sort}
use rmm_rxf_sys_de.Base.Text.{decimal, parts}
use rmm_rxf_sys_de.Fleet.Types.{Device, PatchSummary, PatchCounts, lookup, percent}
use rmm_rxf_sys_de.Fleet.Status.{max_disk}
use rmm_rxf_sys_de.Tasks.{
  crit, warn, info, devices, patches, to_device, to_page, OverviewTask, scan_stale_days, day,
  severity_order, names, free_space_note, relative_days,
}

-- `Math.round(maxDisk(d))`
abbrev rounded_disk : Device → String
rounded_disk d = decimal ((max_disk d + 500000) / 1000000)

abbrev pub is_online : Device → Bool
is_online d = d.online

abbrev pub disk_full : Device → Bool
disk_full d = leb (percent 90) (max_disk d)

abbrev pub disk_crit : Device → OverviewTask
disk_crit d = record {
  id = parts ("disk-crit-" ∷ decimal d.id ∷ []);
  severity = crit;
  tag = "kritisch";
  title = parts (d.hostname ∷ ": Platte zu " ∷ rounded_disk d ∷ " % voll" ∷ []);
  why = "Ab hier scheitern Updates und Dienste schreiben ins Leere.";
  target = to_device d.id;
  action_label = "Gerät öffnen →";
}

abbrev security_in : Option PatchCounts → ℕ
security_in none = 0
security_in (some c) = c.security

-- `patchSummary[String(d.id)]?.security ?? 0`
abbrev pub security_of : PatchSummary → Device → ℕ
security_of ps d = security_in (lookup d.id ps)

abbrev pub security_task : ℕ → List Device → OverviewTask
security_task total concerned = record {
  id = "patches-security";
  severity = crit;
  tag = "sicherheit";
  title = parts (
      decimal total
      ∷ " Sicherheitsupdate"
      ∷ (if total == 1 then "" else "s")
      ∷ " auf "
      ∷ decimal (length concerned)
      ∷ " Gerät"
      ∷ (if length concerned == 1 then "" else "en")
      ∷ " offen"
      ∷ []);
  why = names concerned;
  target = to_page patches none;
  action_label = "Patches →";
}

abbrev pub security_tasks : ℕ → List Device → List OverviewTask
security_tasks total concerned = if ltb 0 total then security_task total concerned ∷ [] else []

abbrev pub by_last_seen : Device → Device → Ordering
by_last_seen a b = compare (or_else a.last_seen_at 0) (or_else b.last_seen_at 0)

-- Seen once, offline, and for a day or longer. The clock is not behind the last contact.
abbrev pub is_long_gone : ℕ → Device → Bool
is_long_gone now d = leb day (now - or_else d.last_seen_at now)

unfoldable pub long_gone : ℕ → List Device → List Device
long_gone now all =
    filter (is_long_gone now)
      (sort by_last_seen (filter (λ d. not d.online && is_some d.last_seen_at) all))

abbrev pub offline_tasks : ℕ → List Device → List OverviewTask
offline_tasks now [] = []
offline_tasks now (d ∷ []) =
    record {
      id = parts ("offline-" ∷ decimal d.id ∷ []);
      severity = warn;
      tag = "offline";
      title = parts (
          d.hostname
          ∷ " seit "
          ∷ decimal (relative_days (or_else d.last_seen_at now) now)
          ∷ " Tagen nicht erreichbar"
          ∷ []);
      why = "Kein Heartbeat — weder Monitoring noch Updates laufen dort.";
      target = to_device d.id;
      action_label = "Gerät öffnen →";
    }
    ∷ []
offline_tasks now (d ∷ e ∷ gone) =
    record {
      id = "offline-many";
      severity = warn;
      tag = "offline";
      title =
          parts
            (decimal (length (d ∷ e ∷ gone)) ∷ " Geräte seit über einem Tag nicht erreichbar" ∷ []);
      why = names (d ∷ e ∷ gone);
      target = to_page devices (some "filter=offline");
      action_label = "Geräte →";
    }
    ∷ []

abbrev pub disk_filling : Device → Bool
disk_filling d = leb (percent 80) (max_disk d) && ltb (max_disk d) (percent 90)

module _ (format : ℕ → ℕ → String) where
  abbrev pub disk_tasks : List Device → List OverviewTask
  disk_tasks [] = []
  disk_tasks (d ∷ []) =
      record {
        id = "disk-warn";
        severity = warn;
        tag = "platte";
        title = parts (d.hostname ∷ ": Platte zu " ∷ rounded_disk d ∷ " % voll" ∷ []);
        why = free_space_note format d;
        target = to_device d.id;
        action_label = "Gerät öffnen →";
      }
      ∷ []
  disk_tasks (d ∷ e ∷ filling) =
      record {
        id = "disk-warn";
        severity = warn;
        tag = "platte";
        title =
            parts (decimal (length (d ∷ e ∷ filling)) ∷ " Geräte über 80 % Plattenbelegung" ∷ []);
        why = names (d ∷ e ∷ filling);
        target = to_page devices (some "filter=probleme");
        action_label = "Geräte →";
      }
      ∷ []

-- The subtraction stops at 0: a scan that lies ahead of the clock is not stale either way.
abbrev pub scan_is_stale : ℕ → Device → Bool
scan_is_stale now d =
    d.last_patch_scan_at == 0 || leb (scan_stale_days * day) (now - d.last_patch_scan_at)

abbrev stale_why : String
stale_why =
    "Der Patch-Stand dieser Geräte ist älter als drei Tage — was dort offen ist, weiß gerade niemand."

abbrev pub scan_tasks : List Device → List OverviewTask
scan_tasks [] = []
scan_tasks (d ∷ []) =
    record {
      id = "scan-stale";
      severity = warn;
      tag = "scan";
      title = parts (d.hostname ∷ ": kein aktueller Update-Scan" ∷ []);
      why = stale_why;
      target = to_device d.id;
      action_label = "Gerät öffnen →";
    }
    ∷ []
scan_tasks (d ∷ e ∷ stale) =
    record {
      id = "scan-stale";
      severity = warn;
      tag = "scan";
      title = parts (decimal (length (d ∷ e ∷ stale)) ∷ " Geräte ohne aktuellen Update-Scan" ∷ []);
      why = stale_why;
      target = to_page patches none;
      action_label = "Patches →";
    }
    ∷ []

abbrev pub agent_tasks : List Device → List OverviewTask
agent_tasks [] = []
agent_tasks (d ∷ outdated) =
    record {
      id = "agent-update";
      severity = info;
      tag = "agent";
      title = parts (
          decimal (length (d ∷ outdated))
          ∷ " Gerät"
          ∷ (if length (d ∷ outdated) == 1 then " läuft" else "e laufen")
          ∷ " auf einem älteren Agent"
          ∷ []);
      why = parts (
          "Aktuell ist "
          ∷ or_else d.agent_update_available "eine neuere Version"
          ∷ ". Das Update ist signiert und wird beim nächsten Kontakt angeboten."
          ∷ []);
      target = to_page devices none;
      action_label = "Geräte →";
    }
    ∷ []

abbrev pub pending_task : ℕ → OverviewTask
pending_task pending_other = record {
  id = "patches-pending";
  severity = info;
  tag = "updates";
  title = parts (decimal pending_other ∷ " weitere Updates verfügbar" ∷ []);
  why = "Ohne Sicherheitsbezug — sammeln lassen und im Patch-Fenster mitnehmen.";
  target = to_page patches none;
  action_label = "Patches →";
}

abbrev pub pending_tasks : ℕ → ℕ → List OverviewTask
pending_tasks pending security =
    if ltb security pending then pending_task (pending - security) ∷ [] else []

abbrev pub pending_in : ℕ × PatchCounts → ℕ
pending_in (id, c) = c.pending

abbrev pub security_count : List Device → PatchSummary → ℕ
security_count all summary =
    sum_of (security_of summary) (filter (λ d. ltb 0 (security_of summary d)) all)

module _ (format : ℕ → ℕ → String) (all : List Device) (summary : PatchSummary) (now : ℕ) where
  abbrev online : List Device
  online = filter is_online all

  -- The tasks in the order in which they are found.
  unfoldable pub found_tasks : List OverviewTask
  found_tasks =
      map disk_crit (filter disk_full online)
      ++ security_tasks (security_count all summary)
          (filter (λ d. ltb 0 (security_of summary d)) all)
      ++ offline_tasks now (long_gone now all)
      ++ disk_tasks format (filter disk_filling online)
      ++ scan_tasks (filter (scan_is_stale now) online)
      ++ agent_tasks (filter (λ d. is_some d.agent_update_available) all)
      ++ pending_tasks (sum_of pending_in summary) (security_count all summary)

  unfoldable pub build_tasks : List OverviewTask
  build_tasks =
      sort (λ a b. compare (severity_order a.severity) (severity_order b.severity)) found_tasks
