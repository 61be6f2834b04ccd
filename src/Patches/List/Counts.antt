-- ===== src/Patches/List/Counts.antt =====
-- The numbers on the filters are the rows behind them: frontend/src/pages/patches/PatchesPage.tsx,
-- lines 304 to 338.
use rmm_rxf_sys_de.Base.{
  ℕ, ◌≡◌, refl, sym, ◌∙◌, Bool, false, ◌&&◌, String, Option, some, List, [], ◌∷◌, filter, count,
  sum_of, if◌then◌else◌, map, length, length-map, arith,
}
use rmm_rxf_sys_de.Base.Text.{Collator}
use rmm_rxf_sys_de.Fleet.Types.{Device}
use rmm_rxf_sys_de.Address.{Params, get-set_one, set_param, person_filter}
use rmm_rxf_sys_de.Patches.Filter.{
  OsCategory, win_pc, win_server, mac, linux, OsFilter, only, os_categories, category_of,
  matches_os, same_category, StateFilter, sicherheit, offen, aktuell, ungeprueft, matches_state,
}
use rmm_rxf_sys_de.Base.Sort.{sort, length-sort}
use rmm_rxf_sys_de.Patches.Sort.{ListContext, Sort, value, compare_keyed, sort_devices}
use rmm_rxf_sys_de.Patches.List.{
  View, read_view, state_of, os_of, conn_of, is_narrowed, narrowed_otherwise, is_base, base,
  is_shown, state_count, os_count, shown, reset_filters,
}

count-eq-length-filter :
    {A : Type 0} (p : A → Bool) (xs : List A) → count p xs ≡ length (filter p xs)
count-eq-length-filter p [] = refl
count-eq-length-filter p (x ∷ xs) = ground (arith, count-eq-length-filter p xs)

length-sort_devices :
    (collator : Collator) (ds : List Device) (s : Sort) (ctx : ListContext)
    → length (sort_devices collator ds s ctx) ≡ length ds
unfolding sort_devices
length-sort_devices collator ds s ctx =
    let keyed = map (λ (d : Device). (d, value d s.key ctx)) ds in
    length-map (λ (k : Device × Option _). k.0) (sort (compare_keyed collator s.dir) keyed)
    ∙ length-sort (compare_keyed collator s.dir) keyed
    ∙ length-map (λ (d : Device). (d, value d s.key ctx)) ds

module _ (lower trim : String → String) (ctx : ListContext) (now : ℕ) (collator : Collator) where
  length-shown :
      (v : View) (q : String) (devices : List Device)
      → length (shown lower trim ctx now collator v q devices)
        ≡ count (is_shown lower trim ctx now v) (base lower trim ctx now v q devices)
  unfolding shown
  length-shown v q devices =
      let kept = base lower trim ctx now v q devices in
      length-sort_devices collator (filter (is_shown lower trim ctx now v) kept) v.sort ctx
      ∙ sym (count-eq-length-filter (is_shown lower trim ctx now v) kept)

  -- A device is in one group of systems.
  one_category :
      (k : OsCategory) (b : Bool)
      → sum_of (λ c. if same_category k c && b then 1 else 0) os_categories ≡ (if b then 1 else 0)
  one_category win_pc b = ground arith
  one_category win_server b = ground arith
  one_category mac b = ground arith
  one_category linux b = ground arith

  all_categories :
      (v : View) (ds : List Device)
      → sum_of
          (λ c. count (is_shown lower trim ctx now (record v { os = only c })) ds)
          os_categories
        ≡ count (is_shown lower trim ctx now (record v { os = OsFilter.alle })) ds
  unfolding matches_os
  all_categories v [] = refl
  all_categories v (d ∷ ds) = ground (
    arith,
    all_categories v ds,
    one_category (category_of d) (matches_state d v.state ctx.patch_summary now),
  )

  state_count_lem :
      (v : View) (q : String) (devices : List Device) (f : StateFilter) (n : ℕ)
      → state_count lower trim ctx now v q devices f ≡ some n
      → count
          (is_shown lower trim ctx now (record v { state = f }))
          (base lower trim ctx now v q devices)
        ≡ n
  unfolding state_count
  state_count_lem v q devices StateFilter.alle n h = absurd (cc (h))
  state_count_lem v q devices sicherheit n h = cc (h)
  state_count_lem v q devices offen n h = cc (h)
  state_count_lem v q devices aktuell n h = cc (h)
  state_count_lem v q devices ungeprueft n h = cc (h)

  -- The number on a button is that of the rows that a click on it brings, on all pages, with the
  -- other filters and the search as they are; and the numbers on the four systems add up to the rows
  -- of all systems.
  pub option_counts :
      (v : View) (q : String) (devices : List Device) (f : StateFilter) (n : ℕ) (c : OsCategory)
      → state_count lower trim ctx now v q devices f ≡ some n
      → (length (shown lower trim ctx now collator (record v { state = f }) q devices) ≡ n)
        × (length (shown lower trim ctx now collator (record v { os = only c }) q devices)
            ≡ os_count lower trim ctx now v q devices c)
        × (sum_of (os_count lower trim ctx now v q devices) os_categories
            ≡ length
                (shown lower trim ctx now collator (record v { os = OsFilter.alle }) q devices))
  unfolding os_count is_base
  option_counts v q devices f n c h = (
    length-shown (record v { state = f }) q devices ∙ state_count_lem v q devices f n h,
    length-shown (record v { os = only c }) q devices,
    all_categories v (base lower trim ctx now v q devices)
        ∙ sym (length-shown (record v { os = OsFilter.alle }) q devices),
  )

-- After "Filter zurücksetzen" nothing narrows the list, whatever the address and the search were.
pub is_narrowed-reset_filters :
    (lower trim : String → String) (ps : Params)
    → trim "" ≡ ""
    → is_narrowed lower trim (read_view (reset_filters ps).1) (reset_filters ps).0 ≡ false
unfolding is_narrowed narrowed_otherwise read_view reset_filters set_param state_of os_of conn_of
    person_filter
is_narrowed-reset_filters lower trim ps h = simp (get-set_one, h)
