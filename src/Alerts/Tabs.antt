-- ===== src/Alerts/Tabs.antt =====
-- Tabs of the alert centre: frontend/src/pages/alerts/alertList.ts, lines 17 to 42.
use rmm_rxf_sys_de.Base.{
  ℕ, ◌+◌, ◌≡◌, ◌∙◌, Bool, true, false, List, [], ◌∷◌, arith, length, count, is_some, if◌then◌else◌,
}
use rmm_rxf_sys_de.Fleet.Types.{Alert}

pub data Tab : Type 0 where
  offen quittiert behoben : Tab

unfoldable pub tab_of : Alert → Tab
tab_of a =
    if is_some a.resolved_at then behoben else (if is_some a.acked_at then quittiert else offen)

abbrev pub same_tab : Tab → Tab → Bool
same_tab offen offen = true
same_tab quittiert quittiert = true
same_tab behoben behoben = true
same_tab _ _ = false

-- `Record<Tab, number>`
pub record Counts : Type 0 where
  pub offen : ℕ
  pub quittiert : ℕ
  pub behoben : ℕ

abbrev pub get : Tab → Counts → ℕ
get offen c = c.offen
get quittiert c = c.quittiert
get behoben c = c.behoben

-- `out[tab] += 1`
abbrev add_one : Tab → Counts → Counts
add_one offen c = record c { offen = c.offen + 1 }
add_one quittiert c = record c { quittiert = c.quittiert + 1 }
add_one behoben c = record c { behoben = c.behoben + 1 }

count_from : Counts → List Alert → Counts
count_from out [] = out
count_from out (a ∷ list) = count_from (add_one (tab_of a) out) list

unfoldable pub count_tabs : List Alert → Counts
unfolding count_from
count_tabs list = count_from (record { offen = 0; quittiert = 0; behoben = 0 }) list

abbrev is_in : Tab → Alert → Bool
is_in t a = same_tab (tab_of a) t

get-count_from :
    (t : Tab) (out : Counts) (list : List Alert)
    → get t (count_from out list) ≡ get t out + count (λ a. same_tab (tab_of a) t) list
unfolding count_from
get-count_from t out [] = omega arith
get-count_from t out (a ∷ list) = ground (arith, get-count_from t (add_one (tab_of a) out) list)

count_all :
    (list : List Alert)
    → count (is_in offen) list + count (is_in quittiert) list + count (is_in behoben) list
      ≡ length list
count_all [] = omega arith
count_all (a ∷ list) = ground (arith, count_all list)

-- The number on each tab is the number of alerts that the tab lists, and every alert is in exactly
-- one tab.
pub count_tabs_lem :
    (list : List Alert)
    → ((t : Tab) → get t (count_tabs list) ≡ count (λ a. same_tab (tab_of a) t) list)
      × ((count_tabs list).offen + (count_tabs list).quittiert + (count_tabs list).behoben
          ≡ length list)
unfolding count_tabs
count_tabs_lem list =
    let none_yet : Counts = record { offen = 0; quittiert = 0; behoben = 0 } in
    let total = λ (t : Tab). get-count_from t none_yet list in
    (
      (λ t. total t ∙ ground arith),
      omega (arith, total offen, total quittiert, total behoben, count_all list),
    )
