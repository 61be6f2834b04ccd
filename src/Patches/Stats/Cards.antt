-- ===== src/Patches/Stats/Cards.antt =====
-- The cards of the system groups add up to the summary: frontend/src/pages/patches/patchList.ts,
-- lines 297 to 317.
use rmm_rxf_sys_de.Base.{
  ℕ, ◌+◌, ◌≡◌, refl, ◌∙◌, sym, Bool, List, [], ◌∷◌, map, arith, ltb, length, count, filter, sum_of,
  or_else, All, if◌then◌else◌,
}
use rmm_rxf_sys_de.Fleet.Types.{Device, PatchSummary}
use rmm_rxf_sys_de.Patches.Filter.{
  OsCategory, win_pc, win_server, mac, linux, os_categories, category_of, same_category,
  StateFilter, sicherheit, aktuell, ungeprueft, matches_state, pending_of, security_of,
}
use rmm_rxf_sys_de.Patches.Stats.{patch_stats, CategoryStat, category_stat, category_stats}
use rmm_rxf_sys_de.Patches.Stats.Laws.{patch_stats-eq-counts}

abbrev group : OsCategory → List Device → List Device
group c ds = filter (λ d. same_category (category_of d) c) ds

abbrev one_if : Bool → ℕ
one_if b = if b then 1 else 0

count-sum_of : (p : Device → Bool) (ds : List Device) → count p ds ≡ sum_of (λ d. one_if (p d)) ds
count-sum_of p [] = refl
count-sum_of p (d ∷ ds) = ground (arith, count-sum_of p ds)

length-sum_of : (ds : List Device) → length ds ≡ sum_of (λ d. 1) ds
length-sum_of [] = refl
length-sum_of (d ∷ ds) = omega (arith, length-sum_of ds)

-- Every device is in exactly one group.
sum_of-group :
    (m : Device → ℕ) (ds : List Device)
    → sum_of m (group win_pc ds)
        + (sum_of m (group win_server ds)
            + (sum_of m (group mac ds) + (sum_of m (group linux ds) + 0)))
      ≡ sum_of m ds
sum_of-group m [] = omega arith
sum_of-group m (d ∷ ds) = ground (arith, sum_of-group m ds)

-- Cards that are left out count nothing.
sum_of-filter :
    (f : CategoryStat → ℕ) (cs : List CategoryStat)
    → All (λ c. c.total ≡ 0 → f c ≡ 0) cs
    → sum_of f (filter (λ c. ltb 0 c.total) cs) ≡ sum_of f cs
sum_of-filter f [] h = refl
sum_of-filter f (c ∷ cs) (z, h) = ground (arith, sum_of-filter f cs h)

sum_of_empty : (m : Device → ℕ) (ds : List Device) → length ds ≡ 0 → sum_of m ds ≡ 0
sum_of_empty m [] h = refl
sum_of_empty m (d ∷ ds) h = absurd (omega arith)

module _ (ds : List Device) (ps : PatchSummary) (now : ℕ) where
  -- A figure of a card that is a sum over the devices of its group.
  abbrev IsSum : (CategoryStat → ℕ) → (Device → ℕ) → Type 0
  IsSum f m = (c : OsCategory) → f (category_stat ds ps now c) ≡ sum_of m (group c ds)

  total-length : (c : OsCategory) → (category_stat ds ps now c).total ≡ length (group c ds)
  unfolding category_stat
  total-length c = rw (patch_stats-eq-counts (group c ds) ps now)

  empty_card :
      (f : CategoryStat → ℕ) (m : Device → ℕ)
      → IsSum f m
      → (c : OsCategory) → (category_stat ds ps now c).total ≡ 0
      → f (category_stat ds ps now c) ≡ 0
  empty_card f m h c e = h c ∙ sum_of_empty m (group c ds) (sym (total-length c) ∙ e)

  sum_of-cards :
      (f : CategoryStat → ℕ) (m : Device → ℕ)
      → IsSum f m
      → sum_of f (category_stats ds ps now) ≡ sum_of m ds
  unfolding category_stats
  sum_of-cards f m h =
      sum_of-filter f (map (category_stat ds ps now) os_categories) (
        empty_card f m h win_pc,
        (empty_card f m h win_server, (empty_card f m h mac, (empty_card f m h linux, tt))),
      )
      ∙ rw (h win_pc, h win_server, h mac, h linux) (sum_of-group m ds)

-- The cards add up to the summary above them: devices, current and stale devices, open updates,
-- open security updates, and devices with one. No device is in two cards or in none.
pub category_stats_totals :
    (ds : List Device) (ps : PatchSummary) (now : ℕ)
    → (sum_of (λ c. c.total) (category_stats ds ps now) ≡ (patch_stats ds ps now).devices)
      × (sum_of (λ c. c.current) (category_stats ds ps now) ≡ (patch_stats ds ps now).current)
      × (sum_of (λ c. c.pending) (category_stats ds ps now) ≡ (patch_stats ds ps now).pending)
      × (sum_of (λ c. c.security) (category_stats ds ps now) ≡ (patch_stats ds ps now).security)
      × (sum_of (λ c. c.security_devices) (category_stats ds ps now)
          ≡ (patch_stats ds ps now).security_devices)
      × (sum_of (λ c. c.stale) (category_stats ds ps now) ≡ (patch_stats ds ps now).stale)
unfolding category_stat
category_stats_totals ds ps now = rw (patch_stats-eq-counts ds ps now) (
  sum_of-cards ds ps now (λ c. c.total) (λ d. 1)
        (λ c. total-length ds ps now c ∙ length-sum_of (group c ds))
      ∙ sym (length-sum_of ds),
  counted (λ c. c.current) aktuell (λ c. rw (patch_stats-eq-counts (group c ds) ps now)),
  sum_of-cards ds ps now (λ c. c.pending) (λ d. or_else (pending_of d ps) 0)
      (λ c. rw (patch_stats-eq-counts (group c ds) ps now)),
  sum_of-cards ds ps now (λ c. c.security) (λ d. security_of d ps)
      (λ c. rw (patch_stats-eq-counts (group c ds) ps now)),
  counted (λ c. c.security_devices) sicherheit
      (λ c. rw (patch_stats-eq-counts (group c ds) ps now)),
  counted (λ c. c.stale) ungeprueft (λ c. rw (patch_stats-eq-counts (group c ds) ps now)),
)
  where
    counted :
        (f : CategoryStat → ℕ) (s : StateFilter)
        → ((c : OsCategory)
            → f (category_stat ds ps now c) ≡ count (λ d. matches_state d s ps now) (group c ds))
        → sum_of f (category_stats ds ps now) ≡ count (λ d. matches_state d s ps now) ds
    counted f s h =
        sum_of-cards ds ps now f (λ d. one_if (matches_state d s ps now))
          (λ c. h c ∙ count-sum_of (λ d. matches_state d s ps now) (group c ds))
        ∙ sym (count-sum_of (λ d. matches_state d s ps now) ds)
