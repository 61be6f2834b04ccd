-- ===== src/Devices/Sort/Laws.antt =====
-- The order of the device list: frontend/src/pages/devices/deviceList.ts, lines 181 to 202.
use Prim.Native.Nat.Ordering.{lt, eq, gt}
use mathlib.Core.List.{Perm}
use mathlib.Core.Option
use rmm_rxf_sys_de.Base.{
  ◌⊎◌, arith, Ordering, ℕ, ◌≡◌, ◌≢◌, refl, ◌∙◌, ap, String, List, [], ◌∷◌, map, Option, none, some,
}
use rmm_rxf_sys_de.Base.Compare.{
  then_by, Comparator, IsOrder, compare-IsOrder, IsOrder-of_eq, both, on-IsOrder, flip-IsOrder,
  missing_last-IsOrder,
}
use rmm_rxf_sys_de.Base.Sort.{sort, IsSorted, sort-perm, sort-IsSorted, sort-map}
use rmm_rxf_sys_de.Base.Table.{MayPrecede, InOrder, InOrder-of_IsSorted}
use rmm_rxf_sys_de.Base.Text.{Collator}
use rmm_rxf_sys_de.Fleet.Types.{Device}
use rmm_rxf_sys_de.Fleet.Status.{device_status_kind}
use rmm_rxf_sys_de.Patches.Sort.{
  SortDir, asc, desc, ListContext, Value, num, text, signed, owner_of, text_or_none,
}
use rmm_rxf_sys_de.Patches.Sort.Laws.{by_hostname}
use rmm_rxf_sys_de.Devices.Filter.{live_pct, cpu_pct, mem_pct, disk_pct, last_seen}
use rmm_rxf_sys_de.Devices.Sort.{
  SortKey, name, status, person, cpu, ram, disk, updates, agent, seen, Sort, value, severity,
  updates_rank, compare_value, compare_keyed, sort_devices, parse_sort, format_sort,
}

signed-IsOrder :
    {B : Type 0} {c : Comparator B} (dir : SortDir)
    → IsOrder c
    → IsOrder (λ x y. signed dir (c x y))
signed-IsOrder asc o = o
signed-IsOrder desc o = flip-IsOrder o

module _ (collator : Collator) (number : String → Option ℕ) (dir : SortDir) where
  abbrev column : SortKey → Device → Option Value → Device → Option Value → Ordering
  column key a v b w = compare_keyed collator number (record { key = key; dir = dir }) (a, v) (b, w)

  column-IsOrder :
      {B : Type 0} {c : Comparator B} (key : SortKey) (e : B → Value)
      → IsOrder c
      → ((x y : B) → compare_value collator number key (e x) (e y) ≡ c x y)
      → (v : Device → Option B)
      → IsOrder (λ a b. column key a (Option.map e (v a)) b (Option.map e (v b)))
  column-IsOrder {B} {c} key e o h v =
      IsOrder-of_eq (λ a b. same a b (v a) (v b))
        (missing_last-IsOrder (signed-IsOrder dir o) (on-IsOrder (λ d. d.hostname) collator.order)
          v)
    where
      same :
          (a b : Device) (x y : Option B)
          → column key a (Option.map e x) b (Option.map e y)
            ≡ both
                (λ p q. signed dir (c p q))
                (λ a b. collator.compare a.hostname b.hostname)
                a
                x
                b
                y
      same a b none none = refl
      same a b none (some y) = refl
      same a b (some x) none = refl
      same a b (some x) (some y) = rw (h x y)

  value-IsOrder :
      (key : SortKey) (ctx : ListContext)
      → key ≢ agent
      → IsOrder (λ a b. column key a (value a key ctx) b (value b key ctx))
  unfolding value
  value-IsOrder name ctx h =
      column-IsOrder name text collator.order (λ x y. refl) (λ d. some d.hostname)
  value-IsOrder status ctx h =
      column-IsOrder status num compare-IsOrder (λ x y. refl)
        (λ d. some (severity (device_status_kind d)))
  value-IsOrder person ctx h =
      column-IsOrder person text collator.order (λ x y. refl)
        (λ d. text_or_none (owner_of d ctx.person_name))
  value-IsOrder cpu ctx h =
      column-IsOrder cpu num compare-IsOrder (λ x y. refl) (λ d. live_pct d cpu_pct)
  value-IsOrder ram ctx h =
      column-IsOrder ram num compare-IsOrder (λ x y. refl) (λ d. live_pct d mem_pct)
  value-IsOrder disk ctx h = column-IsOrder disk num compare-IsOrder (λ x y. refl) disk_pct
  value-IsOrder updates ctx h =
      column-IsOrder updates num compare-IsOrder (λ x y. refl)
        (λ d. updates_rank d ctx.patch_summary)
  value-IsOrder agent ctx h = absurd (h refl)
  value-IsOrder seen ctx h = column-IsOrder seen num compare-IsOrder (λ x y. refl) last_seen

-- How two devices compare in the sorted column.
abbrev pub compare_rows : Collator → (String → Option ℕ) → Sort → ListContext → Comparator Device
compare_rows collator number s ctx a b =
    compare_keyed collator number s (a, value a s.key ctx) (b, value b s.key ctx)

abbrev BeforeIn : SortDir → Ordering → Type 0
BeforeIn asc c = c ≡ lt
BeforeIn desc c = c ≡ gt

-- In the ascending direction the lower value comes first, in the descending the higher.
abbrev pub Before : Collator → (String → Option ℕ) → Sort → Value → Value → Type 0
Before collator number s v w = BeforeIn s.dir (compare_value collator number s.key v w)

abbrev pub Equal : Collator → (String → Option ℕ) → Sort → Value → Value → Type 0
Equal collator number s v w = compare_value collator number s.key v w ≡ eq

Before-or :
    (dir : SortDir) (c t : Ordering)
    → then_by (signed dir c) t ≢ gt
    → BeforeIn dir c ⊎ (c ≡ eq) × (t ≢ gt)
Before-or asc c t h = ground arith
Before-or desc c t h = ground arith

may_precede :
    (collator : Collator) (number : String → Option ℕ) (key : SortKey) (dir : SortDir) (a : Device)
    (v : Option Value) (b : Device) (w : Option Value)
    → compare_keyed collator number (record { key = key; dir = dir }) (a, v) (b, w) ≢ gt
    → MayPrecede
        (Before collator number (record { key = key; dir = dir }))
        (Equal collator number (record { key = key; dir = dir }))
        (by_hostname collator)
        a
        v
        b
        w
may_precede collator number key dir a none b none h = h
may_precede collator number key dir a none b (some w) h = absurd (h refl)
may_precede collator number key dir a (some v) b none h = tt
may_precede collator number key dir a (some v) b (some w) h =
    Before-or dir (compare_value collator number key v w) (by_hostname collator a b) h

map_firsts :
    {B : Type 0} (f : Device → B) (ds : List Device)
    → map (λ (k : Device × B). k.0) (map (λ d. (d, f d)) ds) ≡ ds
map_firsts f [] = refl
map_firsts f (d ∷ ds) = rw (map_firsts f ds)

module _ (collator : Collator) (number : String → Option ℕ) (s : Sort) (ctx : ListContext) where
  rows-eq :
      (ds : List Device)
      → sort_devices collator number ds s ctx ≡ sort (compare_rows collator number s ctx) ds
  unfolding sort_devices
  rows-eq ds =
      ap (map (λ (k : Device × Option Value). k.0))
        (sort-map (λ d. (d, value d s.key ctx)) (compare_keyed collator number s) ds)
      ∙ map_firsts (λ d. value d s.key ctx) (sort (compare_rows collator number s ctx) ds)

  pub device_rows-perm : (ds : List Device) → Perm (sort_devices collator number ds s ctx) ds
  device_rows-perm ds = rw (rows-eq ds) (sort-perm (compare_rows collator number s ctx) ds)

  -- No row stands behind one that the comparator puts after it.
  pub device_rows-IsSorted :
      (ds : List Device)
      → s.key ≢ agent
      → Perm (sort_devices collator number ds s ctx) ds
        × IsSorted (compare_rows collator number s ctx) (sort_devices collator number ds s ctx)
  device_rows-IsSorted ds h = rw (rows-eq ds) (
    sort-perm (compare_rows collator number s ctx) ds,
    sort-IsSorted (value-IsOrder collator number s.dir s.key ctx h) ds,
  )

  -- The device list shows the given devices, each as often as it was given. Sorted by any column
  -- but the version of the agent, the rows with a value come first, the lower value first (in the
  -- descending direction the higher), and what the values leave open is ordered by the hostname.
  pub device_rows-InOrder :
      (ds : List Device)
      → s.key ≢ agent
      → Perm (sort_devices collator number ds s ctx) ds
        × InOrder
            (Before collator number s)
            (Equal collator number s)
            (by_hostname collator)
            (λ d. value d s.key ctx)
            (sort_devices collator number ds s ctx)
  device_rows-InOrder ds h =
      let (same, sorted) = device_rows-IsSorted ds h in
      (
        same,
        InOrder-of_IsSorted (Before collator number s) (Equal collator number s)
            (by_hostname collator) (λ d. value d s.key ctx) (compare_rows collator number s ctx)
            (λ a b.
              may_precede collator number s.key s.dir a (value a s.key ctx) b (value b s.key ctx))
            (sort_devices collator number ds s ctx) sorted,
      )

parse_column :
    (k : SortKey) (d : SortDir)
    → parse_sort (format_sort (record { key = k; dir = d })) ≡ record { key = k; dir = d }
unfolding parse_sort format_sort
parse_column name asc = refl
parse_column name desc = refl
parse_column status asc = refl
parse_column status desc = refl
parse_column person asc = refl
parse_column person desc = refl
parse_column cpu asc = refl
parse_column cpu desc = refl
parse_column ram asc = refl
parse_column ram desc = refl
parse_column disk asc = refl
parse_column disk desc = refl
parse_column updates asc = refl
parse_column updates desc = refl
parse_column agent asc = refl
parse_column agent desc = refl
parse_column seen asc = refl
parse_column seen desc = refl

-- Every sort of the device list survives its address form, the default included.
pub device_sort_roundtrip : (s : Sort) → parse_sort (format_sort s) ≡ s
device_sort_roundtrip s = parse_column s.key s.dir
