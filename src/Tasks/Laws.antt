-- ===== src/Tasks/Laws.antt =====
-- The order of the tasks and the verdict on them: frontend/src/overviewTasks.ts, lines 87 to 255.
use rmm_rxf_sys_de.Base.{
  ℕ, ◌-◌, ◌≡◌, refl, ◌∙◌, Bool, not, ◌&&◌, ◌||◌, String, List, [], ◌∷◌, ◌++◌, map, arith, any,
  filter, length, sum_of, leb, ltb, ◌==◌, is_some, or_else, any-count, any-append, any-or,
  any-filter, any-eq, if◌then◌else◌,
}
use rmm_rxf_sys_de.Base.Sort.{sort, any-sort}
use rmm_rxf_sys_de.Base.Sort.Parts.{by_level, sort-levels}
use rmm_rxf_sys_de.Fleet.Types.{Device, PatchSummary}
use rmm_rxf_sys_de.Tasks.{
  TaskSeverity, crit, warn, info, OverviewTask, severity_order, is_severity, verdict, of_tasks, ok,
  day,
}
use rmm_rxf_sys_de.Tasks.Build.{
  security_tasks, pending_tasks, pending_in, build_tasks, found_tasks, long_gone, is_online,
  disk_full, disk_filling, scan_is_stale, security_of, security_count, offline_tasks, disk_tasks,
  scan_tasks, agent_tasks, disk_crit, is_long_gone, by_last_seen,
}

module _ (format : ℕ → ℕ → String) (ds : List Device) (summary : PatchSummary) (now : ℕ) where
  -- The task list holds every task found, the critical ones first, then the warnings, then the
  -- hints, each group in the order in which the tasks are found.
  pub build_tasks-levels :
      build_tasks format ds summary now
      ≡ filter (is_severity crit) (found_tasks format ds summary now)
        ++ (filter (is_severity warn) (found_tasks format ds summary now)
            ++ filter (is_severity info) (found_tasks format ds summary now))
  unfolding build_tasks
  build_tasks-levels =
      sort-levels (λ (t : OverviewTask). severity_order t.severity)
        (found_tasks format ds summary now) (λ t. ground arith)

any-disk_crit :
    (ds : List Device) (s : TaskSeverity)
    → any (is_severity s) (map disk_crit ds) ≡ (ltb 0 (length ds) && (severity_order s == 0))
any-disk_crit [] s = ground arith
any-disk_crit (d ∷ ds) s = ground (arith, any-disk_crit ds s)

any-offline :
    (now : ℕ) (ds : List Device) (s : TaskSeverity)
    → any (is_severity s) (offline_tasks now ds) ≡ (ltb 0 (length ds) && (severity_order s == 1))
any-offline now [] s = ground arith
any-offline now (d ∷ []) s = ground arith
any-offline now (d ∷ e ∷ ds) s = ground arith

any-disk :
    (format : ℕ → ℕ → String) (ds : List Device) (s : TaskSeverity)
    → any (is_severity s) (disk_tasks format ds) ≡ (ltb 0 (length ds) && (severity_order s == 1))
any-disk format [] s = ground arith
any-disk format (d ∷ []) s = ground arith
any-disk format (d ∷ e ∷ ds) s = ground arith

any-scan :
    (ds : List Device) (s : TaskSeverity)
    → any (is_severity s) (scan_tasks ds) ≡ (ltb 0 (length ds) && (severity_order s == 1))
any-scan [] s = ground arith
any-scan (d ∷ []) s = ground arith
any-scan (d ∷ e ∷ ds) s = ground arith

any-agent :
    (ds : List Device) (s : TaskSeverity)
    → any (is_severity s) (agent_tasks ds) ≡ (ltb 0 (length ds) && (severity_order s == 2))
any-agent [] s = ground arith
any-agent (d ∷ ds) s = ground arith

-- Gone for a day or longer.
abbrev pub gone : ℕ → Device → Bool
gone now d = not d.online && is_some d.last_seen_at && leb day (now - or_else d.last_seen_at now)

count-long_gone :
    (now : ℕ) (ds : List Device) → ltb 0 (length (long_gone now ds)) ≡ any (gone now) ds
unfolding long_gone
count-long_gone now ds =
    any-count (is_long_gone now)
      (sort by_last_seen (filter (λ d. not d.online && is_some d.last_seen_at) ds))
    ∙ any-sort by_last_seen (is_long_gone now)
        (filter (λ d. not d.online && is_some d.last_seen_at) ds)
    ∙ any-filter (is_long_gone now) (λ d. not d.online && is_some d.last_seen_at) ds
    ∙ any-eq (λ d. (not d.online && is_some d.last_seen_at) && is_long_gone now d) (gone now)
        (λ d. ground arith) ds

any-online :
    (p : Device → Bool) (ds : List Device)
    → ltb 0 (length (filter p (filter is_online ds))) ≡ any (λ d. is_online d && p d) ds
any-online p ds = any-count p (filter is_online ds) ∙ any-filter p is_online ds

any-security :
    (summary : PatchSummary) (ds : List Device)
    → ltb 0 (sum_of (security_of summary) (filter (λ d. ltb 0 (security_of summary d)) ds))
      ≡ any (λ d. ltb 0 (security_of summary d)) ds
any-security summary [] = refl
any-security summary (d ∷ ds) = ground (arith, any-security summary ds)

-- A device that is online and full, or that lacks security updates.
abbrev pub is_urgent : PatchSummary → Device → Bool
is_urgent summary d = is_online d && disk_full d || ltb 0 (security_of summary d)

-- A device that is long gone, or online and filling up or without a recent scan.
abbrev pub is_due : ℕ → Device → Bool
is_due now d = gone now d || is_online d && (disk_filling d || scan_is_stale now d)

any-security_tasks :
    (n : ℕ) (ds : List Device) (s : TaskSeverity)
    → any (is_severity s) (security_tasks n ds) ≡ (ltb 0 n && (severity_order s == 0))
any-security_tasks n ds s = ground arith

any-pending :
    (m n : ℕ) (s : TaskSeverity)
    → any (is_severity s) (pending_tasks m n) ≡ (ltb n m && (severity_order s == 2))
any-pending m n s = ground arith

any-groups :
    {A : Type 0} (p : A → Bool) (a b c d e f g : List A)
    → any p (a ++ b ++ c ++ d ++ e ++ f ++ g)
      ≡ (any p a || (any p b || (any p c || (any p d || (any p e || (any p f || any p g))))))
any-groups p a b c d e f g = ground (
  arith,
  any-append p (a ++ b ++ c ++ d ++ e ++ f) g,
  any-append p (a ++ b ++ c ++ d ++ e) f,
  any-append p (a ++ b ++ c ++ d) e,
  any-append p (a ++ b ++ c) d,
  any-append p (a ++ b) c,
  any-append p a b,
)

any_hint : List Device → PatchSummary → Bool
any_hint ds summary =
    ltb 0 (length (filter (λ (d : Device). is_some d.agent_update_available) ds))
    || ltb (security_count ds summary) (sum_of pending_in summary)

module _ (format : ℕ → ℕ → String) (ds : List Device) (summary : PatchSummary) (now : ℕ) where
  any-found :
      (s : TaskSeverity)
      → any (is_severity s) (found_tasks format ds summary now) ≡ (
          (any (λ d. is_online d && disk_full d) ds || any (λ d. ltb 0 (security_of summary d)) ds)
            && (severity_order s == 0)
          || ((any (gone now) ds
                  || (any (λ d. is_online d && disk_filling d) ds
                      || any (λ d. is_online d && scan_is_stale now d) ds))
                && (severity_order s == 1)
              || any_hint ds summary && (severity_order s == 2)))
  unfolding found_tasks any_hint
  any-found s =
      let online = filter is_online ds in
      let outdated = filter (λ (d : Device). is_some d.agent_update_available) ds in
      let insecure = filter (λ d. ltb 0 (security_of summary d)) ds in
      let total = security_count ds summary in
      let pending = sum_of pending_in summary in
      ground (
        arith,
        any-groups (is_severity s) (map disk_crit (filter disk_full online))
            (security_tasks total insecure) (offline_tasks now (long_gone now ds))
            (disk_tasks format (filter disk_filling online))
            (scan_tasks (filter (scan_is_stale now) online)) (agent_tasks outdated)
            (pending_tasks pending total),
        any-disk_crit (filter disk_full online) s,
        any-security_tasks total insecure s,
        any-offline now (long_gone now ds) s,
        any-disk format (filter disk_filling online) s,
        any-scan (filter (scan_is_stale now) online) s,
        any-agent outdated s,
        any-pending pending total s,
        any-online disk_full ds,
        any-security summary ds,
        count-long_gone now ds,
        any-online disk_filling ds,
        any-online (scan_is_stale now) ds,
      )

  any-built :
      (s : TaskSeverity)
      → any (is_severity s) (build_tasks format ds summary now)
        ≡ any (is_severity s) (found_tasks format ds summary now)
  unfolding build_tasks
  any-built s =
      any-sort (by_level (λ (t : OverviewTask). severity_order t.severity)) (is_severity s)
        (found_tasks format ds summary now)

  -- What the verdict says follows from the devices alone: it is critical if a device is urgent
  -- (online and at least 90 percent full, or without a security update), else a warning if one is
  -- due (gone for a day, or online and either filling up or without a recent scan), and else that
  -- nothing presses. Without a device it only informs.
  pub verdict-build_tasks : (verdict ds (build_tasks format ds summary now)).severity ≡ (
      if length ds == 0
      then of_tasks info
      else (if any (is_urgent summary) ds
          then of_tasks crit
          else (if any (is_due now) ds then of_tasks warn else ok)))
  unfolding verdict
  verdict-build_tasks =
      let built = build_tasks format ds summary now in
      ground (
        arith,
        any-count (is_severity crit) built,
        any-count (is_severity warn) built,
        any-built crit,
        any-built warn,
        any-found crit,
        any-found warn,
        any-or (λ d. is_online d && disk_full d) (λ d. ltb 0 (security_of summary d)) ds,
        any-or (gone now) (λ d. is_online d && (disk_filling d || scan_is_stale now d)) ds,
        online-or,
      )
    where
      online-or : any (λ d. is_online d && (disk_filling d || scan_is_stale now d)) ds ≡ (
          any (λ d. is_online d && disk_filling d) ds
          || any (λ d. is_online d && scan_is_stale now d) ds)
      online-or =
          any-eq (λ d. is_online d && (disk_filling d || scan_is_stale now d))
            (λ d. is_online d && disk_filling d || is_online d && scan_is_stale now d)
            (λ d. ground arith) ds
          ∙ any-or (λ d. is_online d && disk_filling d) (λ d. is_online d && scan_is_stale now d) ds
