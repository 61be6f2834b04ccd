-- ===== src/Alerts/Order.antt =====
-- How urgent an alert is and in which order the list runs: frontend/src/pages/alerts/alertList.ts,
-- lines 44 to 110.
pub mod Laws
use rmm_rxf_sys_de.Base.{
  ℕ, ◌+◌, ◌*◌, Bool, true, false, String, Option, none, some, List, map, Ordering, compare, leb,
  str_eq, or_else, if◌then◌else◌,
}
use rmm_rxf_sys_de.Base.Compare.{then_by}
use rmm_rxf_sys_de.Base.Sort.{sort}
use rmm_rxf_sys_de.Fleet.Types.{Alert, Device}
use rmm_rxf_sys_de.Fleet.Status.{AlertKind, danger, alert_status_kind}
use rmm_rxf_sys_de.Alerts.Tabs.{Tab, offen, quittiert, behoben, tab_of}

-- `LONG_STANDING_AFTER_S[rule]`
unfoldable pub long_standing_after_s : String → Option ℕ
long_standing_after_s rule =
    if str_eq rule "offline"
    then some (24 * 3600)
    else (if str_eq rule "disk"
        then some (6 * 3600)
        else (if str_eq rule "patch_age"
            then some 0
            else (if str_eq rule "mdm_silent"
                then some 0
                else (if str_eq rule "mdm_passcode"
                    then some 0
                    else (if str_eq rule "mdm_identity" then some 0 else none)))))

-- `now - fired_at >= after`, with the subtraction on the other side: the source's is signed.
unfoldable pub is_long_standing : Alert → ℕ → Bool
unfolding long_standing_after_s
is_long_standing a now = elim (long_standing_after_s a.rule) [
  | none ↦ false
  | some after ↦ leb (a.fired_at + after) now
]

abbrev is_danger : AlertKind → Bool
is_danger danger = true
is_danger _ = false

unfoldable pub urgency : Alert → Option Device → ℕ → ℕ
unfolding is_long_standing alert_status_kind
urgency a device now =
    if is_danger (alert_status_kind a device) then 0 else (if is_long_standing a now then 1 else 2)

pub record AlertContext : Type 0 where
  pub device_of : ℕ → Option Device
  pub now : ℕ

abbrev pub tab_rank : Tab → ℕ
tab_rank offen = 0
tab_rank quittiert = 1
tab_rank behoben = 2

pub record Keyed : Type 0 where
  pub a : Alert
  pub tab : ℕ
  pub rank : ℕ
  pub ts : ℕ

unfoldable pub keyed : AlertContext → Alert → Keyed
keyed ctx a =
    let tab = tab_of a in
    record {
      a = a;
      tab = tab_rank tab;
      rank = elim tab [ behoben ↦ 0 | _ ↦ urgency a (ctx.device_of a.device_id) ctx.now ];
      ts = or_else a.resolved_at a.fired_at;
    }

abbrev pub compare_keyed : Keyed → Keyed → Ordering
compare_keyed x y =
    then_by (compare x.tab y.tab)
      (then_by (compare x.rank y.rank) (then_by (compare y.ts x.ts) (compare y.a.id x.a.id)))

unfoldable pub sort_alerts : List Alert → AlertContext → List Alert
unfolding keyed
sort_alerts list ctx = map (λ k. k.a) (sort compare_keyed (map (keyed ctx) list))
