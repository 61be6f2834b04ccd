-- ===== src/Devices/Page.antt =====
-- Which devices the page lists: frontend/src/pages/devices/DevicesPage.tsx, lines 218 to 288.
use rmm_rxf_sys_de.Base.{
  ℕ, ◌≤◌, ◌≡◌, refl, sym, ap, ◌∙◌, ◌⊎◌, Bool, true, false, not, ◌&&◌, ◌||◌, String, Option, none,
  some, is_some, List, [], ◌∷◌, filter, take, count, length, All, All-map, All-take, All-drop,
  All-mono, eq_iff, filter-All, length-take, Bool-cases, inl, inr, ltb, ◌==◌, str_eq, if◌then◌else◌,
  arith,
}
use mathlib.Core.List.{Perm}
use rmm_rxf_sys_de.Base.Sort.{sort-All}
use rmm_rxf_sys_de.Base.Search.{contains}
use rmm_rxf_sys_de.Base.Text.{Collator, parts, join, decimal}
use rmm_rxf_sys_de.Fleet.Types.{Device}
use rmm_rxf_sys_de.Patches.Sort.{SortDir, asc, desc, ListContext, Value, owner_of}
use rmm_rxf_sys_de.Palette.Score.{os_label}
use rmm_rxf_sys_de.Pagination.{Pager}
use rmm_rxf_sys_de.Pagination.View.{paginate}
use rmm_rxf_sys_de.Devices.Filter.{
  Filter, alle, ok, probleme, server, familie, offline, mobil, matches_filter,
}
use rmm_rxf_sys_de.Devices.Sort.{Sort, sort_devices, key_text, compare_keyed, value}
use rmm_rxf_sys_de.Devices.Sort.Laws.{device_rows-perm}
use rmm_rxf_sys_de.Address.{Params, set_param}

abbrev pub filters : List Filter
filters = alle ∷ ok ∷ probleme ∷ offline ∷ server ∷ familie ∷ mobil ∷ []

abbrev pub filter_text : Filter → String
filter_text alle = "alle"
filter_text ok = "ok"
filter_text probleme = "probleme"
filter_text offline = "offline"
filter_text server = "server"
filter_text familie = "familie"
filter_text mobil = "mobil"

abbrev filter_among : String → List Filter → Filter
filter_among t [] = alle
filter_among t (f ∷ fs) = if str_eq (filter_text f) t then f else filter_among t fs

-- `isFilter(rawFilter) ? rawFilter : 'alle'`
unfoldable pub filter_of : Option String → Filter
filter_of none = alle
filter_of (some t) = filter_among t filters

abbrev pub render_cap : ℕ
render_cap = 500

abbrev pub wanted : Option ℕ → Option ℕ → Bool
wanted none person_id = true
wanted (some p) none = false
wanted (some p) (some id) = id == p

-- `lower` and `trim` stand for the methods of texts.
module _ (lower trim : String → String) (ctx : ListContext) where
  abbrev hay : Device → String
  hay d = join " " (
      d.hostname
      ∷ owner_of d ctx.person_name
      ∷ d.owner_label
      ∷ join " " d.tags
      ∷ os_label d.os
      ∷ d.model
      ∷ [])

  -- The search and the person keep the device.
  unfoldable pub is_found : String → Option ℕ → Device → Bool
  is_found q person d =
      let query = lower (trim q) in
      wanted person d.person_id && (str_eq query "" || contains (lower (hay d)) query)

  abbrev pub base : String → Option ℕ → List Device → List Device
  base q person devices = filter (is_found q person) devices

  -- The number on the button of a filter; `none` on that for all.
  unfoldable pub filter_count : String → Option ℕ → List Device → Filter → Option ℕ
  filter_count q person devices alle = none
  filter_count q person devices f = some (count (λ d. matches_filter d f) (base q person devices))

  abbrev dir_text : SortDir → String
  dir_text asc = "asc"
  dir_text desc = "desc"

  -- A number or `null` in a template text.
  abbrev person_text : Option ℕ → String
  person_text none = "null"
  person_text (some id) = decimal id

  unfoldable pub reset_key : Filter → Option ℕ → String → Sort → String
  reset_key f person q s = parts (
      filter_text f
      ∷ "|"
      ∷ person_text person
      ∷ "|"
      ∷ trim q
      ∷ "|"
      ∷ key_text s.key
      ∷ "|"
      ∷ dir_text s.dir
      ∷ [])

  unfoldable pub is_narrowed : Filter → String → Option ℕ → Bool
  is_narrowed f q person =
      not (str_eq (filter_text f) "alle") || (not (str_eq (trim q) "") || is_some person)

  module _ (collator : Collator) (number : String → Option ℕ) where
    unfoldable pub shown : Filter → String → Option ℕ → Sort → List Device → List Device
    shown f q person s devices =
        sort_devices collator number (filter (λ d. matches_filter d f) (base q person devices)) s
          ctx

    unfoldable pub rows : Filter → String → Option ℕ → Sort → Pager → List Device → List Device
    rows f q person s p devices =
        let items = (paginate (shown f q person s devices) p).items in
        if ltb render_cap (length items) then take render_cap items else items

-- The filters and the search that a click on "Filter zurücksetzen" leaves.
unfoldable pub reset_filters : Params → String × Params
reset_filters ps = ("", set_param (("filter", none) ∷ ("q", none) ∷ ("person", none) ∷ []) ps)

filter-filter :
    (p q : Device → Bool) (ds : List Device) → filter q (filter p ds) ≡ filter (λ d. p d && q d) ds
filter-filter p q [] = refl
filter-filter p q (d ∷ ds) = ground (arith, filter-filter p q ds)

filter-same :
    (p q : Device → Bool) (ds : List Device)
    → ((d : Device) → p d ≡ q d)
    → filter p ds ≡ filter q ds
filter-same p q [] h = refl
filter-same p q (d ∷ ds) h = rw (h d, filter-same p q ds h) refl

same_bool : (a b : Bool) → (a ≡ true → b ≡ true) → (b ≡ true → a ≡ true) → a ≡ b
same_bool false false f g = refl
same_bool false true f g = g refl
same_bool true false f g = sym (f refl)
same_bool true true f g = refl

module _ (lower trim : String → String) (ctx : ListContext) (collator : Collator)
    (number : String → Option ℕ) where
  sort_devices-All :
      (P : Device → Type 0) (s : Sort) (devices : List Device)
      → All P devices
      → All P (sort_devices collator number devices s ctx)
  unfolding sort_devices
  sort_devices-All P s devices h =
      All-map P (λ (k : Device × Option Value). k.0) _
        (sort-All (compare_keyed collator number s) (λ k. P k.0) _
          (All-map (λ k. P k.0) (λ d. (d, value d s.key ctx)) devices h))

  -- The device is the person's, or no person is asked for.
  abbrev IsOf : Option ℕ → Device → Type 0
  IsOf none d = Unit
  IsOf (some person) d = d.person_id ≡ some person

  -- The text of the device has the search in it, or there is no search.
  abbrev IsHit : String → Device → Type 0
  IsHit q d =
      (lower (trim q) ≡ "") ⊎ (contains (lower (hay lower trim ctx d)) (lower (trim q)) ≡ true)

  abbrev pub Passed : Filter → String → Option ℕ → Device → Type 0
  Passed f q person d = IsOf person d × IsHit q d × (matches_filter d f ≡ true)

  wanted-IsOf :
      (person of : Option ℕ) (d : Device)
      → d.person_id ≡ of
      → wanted person of ≡ true
      → IsOf person d
  wanted-IsOf none of d e h = tt
  wanted-IsOf (some p) none d e h = absurd (ground arith)
  wanted-IsOf (some p) (some id) d e h = e ∙ ap some (ground arith)

  IsOf-wanted : (person : Option ℕ) (d : Device) → IsOf person d → wanted person d.person_id ≡ true
  IsOf-wanted none d h = refl
  IsOf-wanted (some p) d h = rw (h) (ground arith)

  abbrev passes : Filter → String → Option ℕ → Device → Bool
  passes f q person d = is_found lower trim ctx q person d && matches_filter d f

  passes-Passed :
      (f : Filter) (q : String) (person : Option ℕ) (d : Device)
      → passes f q person d ≡ true
      → Passed f q person d
  unfolding is_found
  passes-Passed f q person d h = (
    wanted-IsOf person d.person_id d refl (ground arith),
    ground (arith, eq_iff (lower (trim q)) ""),
    ground arith,
  )

  Passed-passes :
      (f : Filter) (q : String) (person : Option ℕ) (d : Device)
      → Passed f q person d
      → passes f q person d ≡ true
  unfolding is_found
  Passed-passes f q person d (of, hit, m) =
      ground (arith, IsOf-wanted person d of, eq_iff (lower (trim q)) "", hit, m)

  filter-Passed :
      (f : Filter) (q : String) (person : Option ℕ) (devices : List Device)
      → All
          (Passed f q person)
          (filter (λ d. matches_filter d f) (base lower trim ctx q person devices))
  filter-Passed f q person devices =
      rw (filter-filter (is_found lower trim ctx q person) (λ d. matches_filter d f) devices) (
        All-mono (passes-Passed f q person) (filter (passes f q person) devices)
          (filter-All (passes f q person) devices))

  shown-Passed :
      (f : Filter) (q : String) (person : Option ℕ) (s : Sort) (devices : List Device)
      → All (Passed f q person) (shown lower trim ctx collator number f q person s devices)
  unfolding shown
  shown-Passed f q person s devices =
      sort_devices-All (Passed f q person) s
        (filter (λ d. matches_filter d f) (base lower trim ctx q person devices))
        (filter-Passed f q person devices)

  page-Passed :
      (P : Device → Type 0) (p : Pager) (items : List Device)
      → All P items
      → All P (paginate items p).items
  unfolding paginate
  page-Passed P p items h = All-take P _ _ (All-drop P _ items h)

  capped_lem :
      (P : Device → Type 0) (items : List Device)
      → All P items
      → All P (if ltb render_cap (length items) then take render_cap items else items)
        × (length (if ltb render_cap (length items) then take render_cap items else items)
            ≤ render_cap)
  capped_lem P items h = elim (Bool-cases (ltb render_cap (length items))) [
    | inl many ↦
        rw (many) (All-take P render_cap items h, omega (arith, length-take render_cap items))
    | inr few ↦ rw (few) (h, ground arith)
  ]

  shown-perm :
      (f : Filter) (q : String) (person : Option ℕ) (s : Sort) (devices : List Device)
      → Perm
          (shown lower trim ctx collator number f q person s devices)
          (filter (λ d. matches_filter d f) (base lower trim ctx q person devices))
  unfolding shown
  shown-perm f q person s devices =
      device_rows-perm collator number s ctx
        (filter (λ d. matches_filter d f) (base lower trim ctx q person devices))

  -- The list holds exactly the devices of the fleet that are of the person asked for, have the
  -- search in their text and pass the filter, each as often as the fleet has it: it is a
  -- rearrangement of what any test for these three keeps. Whatever page of it is shown, every row
  -- on it passes all three, and there are at most 500 rows.
  pub rows-Passed :
      (f : Filter) (q : String) (person : Option ℕ) (s : Sort) (p : Pager) (devices : List Device)
      (test : Device → Bool)
      → ((d : Device) → test d ≡ true → Passed f q person d)
      → ((d : Device) → Passed f q person d → test d ≡ true)
      → Perm (shown lower trim ctx collator number f q person s devices) (filter test devices)
        × All (Passed f q person) (rows lower trim ctx collator number f q person s p devices)
        × (length (rows lower trim ctx collator number f q person s p devices) ≤ render_cap)
  unfolding rows
  rows-Passed f q person s p devices test sound complete =
      let (passed, few) =
        capped_lem (Passed f q person)
          (paginate (shown lower trim ctx collator number f q person s devices) p).items
          (page-Passed (Passed f q person) p
            (shown lower trim ctx collator number f q person s devices)
            (shown-Passed f q person s devices)) in
      (
        rw (filter-same test (passes f q person) devices (agree test sound complete)) (
            rw
              (sym (
                filter-filter (is_found lower trim ctx q person) (λ d. matches_filter d f) devices))
              (shown-perm f q person s devices)),
        passed,
        few,
      )
    where
      agree :
          (test : Device → Bool)
          → ((d : Device) → test d ≡ true → Passed f q person d)
          → ((d : Device) → Passed f q person d → test d ≡ true)
          → (d : Device) → test d ≡ passes f q person d
      agree test sound complete d =
          same_bool (test d) (passes f q person d) (λ h. Passed-passes f q person d (sound d h))
            (λ h. complete d (passes-Passed f q person d h))
