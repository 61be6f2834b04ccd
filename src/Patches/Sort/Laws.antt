-- ===== src/Patches/Sort/Laws.antt =====
-- The order of the rows: frontend/src/pages/patches/patchList.ts, lines 187 to 235.
use Prim.Native.Nat.Ordering.{lt, eq, gt}
use mathlib.Core.List.{Perm}
use mathlib.Core.Option
use rmm_rxf_sys_de.Base.{
  ◌≢◌, ◌≡◌, refl, ◌∙◌, ap, List, [], ◌∷◌, ◌++◌, map, Option, none, some, arith, Bool, true, false,
  not, filter, is_some, if◌then◌else◌,
}
use rmm_rxf_sys_de.Base.Compare.{
  Comparator, IsOrder, compare-IsOrder, IsOrder-of_eq, both, on-IsOrder, flip-IsOrder,
  missing_last-IsOrder,
}
use rmm_rxf_sys_de.Base.Sort.{
  sort, IsSorted, sort-perm, sort-IsSorted, sort-map, sort_stable, is_eq, IsSorted-split,
}
use rmm_rxf_sys_de.Base.Table.{MayPrecede, InOrder, InOrder-of_IsSorted}
use rmm_rxf_sys_de.Base.Text.{Collator}
use rmm_rxf_sys_de.Fleet.Types.{Device}
use rmm_rxf_sys_de.Patches.Filter.{pending_of}
use rmm_rxf_sys_de.Patches.Sort.{
  SortKey, name, person, pending, security, scan, conn, SortDir, asc, desc, Sort, ListContext,
  Value, num, text, value, signed, compare_value, owner_of, text_or_none, security_rank,
  compare_keyed, sort_devices,
}

module _ (collator : Collator) (s : Sort) (ctx : ListContext) where
  -- How two devices compare in the sorted column.
  abbrev pub compare_rows : Comparator Device
  compare_rows a b = compare_keyed collator s.dir (a, value a s.key ctx) (b, value b s.key ctx)

abbrev pub by_hostname : Collator → Comparator Device
by_hostname collator a b = collator.compare a.hostname b.hostname

pub signed-IsOrder :
    {B : Type 0} {c : Comparator B} (dir : SortDir)
    → IsOrder c
    → IsOrder (λ x y. signed dir (c x y))
signed-IsOrder asc o = o
signed-IsOrder desc o = flip-IsOrder o

module _ (collator : Collator) (dir : SortDir) where
  column-IsOrder :
      {B : Type 0} {c : Comparator B} (e : B → Value)
      → IsOrder c
      → ((x y : B) → compare_value collator (e x) (e y) ≡ c x y)
      → (v : Device → Option B)
      → IsOrder (λ a b. compare_keyed collator dir (a, Option.map e (v a)) (b, Option.map e (v b)))
  column-IsOrder {B} {c} e o h v =
      IsOrder-of_eq (λ a b. same a b (v a) (v b))
        (missing_last-IsOrder (signed-IsOrder dir o) (on-IsOrder (λ d. d.hostname) collator.order)
          v)
    where
      same :
          (a b : Device) (x y : Option B)
          → compare_keyed collator dir (a, Option.map e x) (b, Option.map e y)
            ≡ both (λ p q. signed dir (c p q)) (by_hostname collator) a x b y
      same a b none none = refl
      same a b none (some y) = refl
      same a b (some x) none = refl
      same a b (some x) (some y) = rw (h x y)

  value-IsOrder :
      (key : SortKey) (ctx : ListContext)
      → IsOrder (λ a b. compare_keyed collator dir (a, value a key ctx) (b, value b key ctx))
  unfolding value
  value-IsOrder name ctx = column-IsOrder text collator.order (λ x y. refl) (λ d. some d.hostname)
  value-IsOrder person ctx =
      column-IsOrder text collator.order (λ x y. refl)
        (λ d. text_or_none (owner_of d ctx.person_name))
  value-IsOrder pending ctx =
      column-IsOrder num compare-IsOrder (λ x y. refl) (λ d. pending_of d ctx.patch_summary)
  value-IsOrder security ctx =
      column-IsOrder num compare-IsOrder (λ x y. refl) (λ d. security_rank d ctx.patch_summary)
  value-IsOrder scan ctx =
      column-IsOrder num compare-IsOrder (λ x y. refl) (λ d. some d.last_patch_scan_at)
  value-IsOrder conn ctx =
      column-IsOrder num compare-IsOrder (λ x y. refl) (λ d. some (if d.connected then 1 else 0))

-- In the ascending direction the lower value comes first, in the descending the higher.
abbrev pub Before : Collator → SortDir → Value → Value → Type 0
Before collator asc v w = compare_value collator v w ≡ lt
Before collator desc v w = compare_value collator v w ≡ gt

abbrev pub Equal : Collator → Value → Value → Type 0
Equal collator v w = compare_value collator v w ≡ eq

may_precede :
    (collator : Collator) (dir : SortDir) (a : Device) (v : Option Value) (b : Device)
    (w : Option Value)
    → compare_keyed collator dir (a, v) (b, w) ≢ gt
    → MayPrecede (Before collator dir) (Equal collator) (by_hostname collator) a v b w
may_precede collator dir a none b none h = h
may_precede collator dir a none b (some w) h = absurd (h refl)
may_precede collator dir a (some v) b none h = tt
may_precede collator asc a (some v) b (some w) h = ground arith
may_precede collator desc a (some v) b (some w) h = ground arith

map_keyed :
    {B : Type 0} (f : Device → B) (ds : List Device)
    → map (λ (k : Device × B). k.0) (map (λ d. (d, f d)) ds) ≡ ds
map_keyed f [] = refl
map_keyed f (d ∷ ds) = rw (map_keyed f ds)

module _ (collator : Collator) (s : Sort) (ctx : ListContext) where
  sort_devices-eq :
      (ds : List Device) → sort_devices collator ds s ctx ≡ sort (compare_rows collator s ctx) ds
  unfolding sort_devices
  sort_devices-eq ds =
      ap (map (λ (k : Device × Option Value). k.0))
        (sort-map (λ d. (d, value d s.key ctx)) (compare_keyed collator s.dir) ds)
      ∙ map_keyed (λ d. value d s.key ctx) (sort (compare_rows collator s ctx) ds)

  rows-IsOrder : IsOrder (compare_rows collator s ctx)
  rows-IsOrder = value-IsOrder collator s.dir s.key ctx

  -- No row stands behind one that the comparator puts after it.
  pub sort_devices-IsSorted :
      (ds : List Device)
      → Perm (sort_devices collator ds s ctx) ds
        × IsSorted (compare_rows collator s ctx) (sort_devices collator ds s ctx)
  sort_devices-IsSorted ds =
      rw (sort_devices-eq ds)
        (sort-perm (compare_rows collator s ctx) ds, sort-IsSorted rows-IsOrder ds)

  -- The table holds the given devices, each as often as it was given. The rows with a value in the
  -- sorted column come first, the lower value first (in the descending direction the higher), and
  -- what the values leave open is ordered by the hostname.
  pub sort_devices-InOrder :
      (ds : List Device)
      → Perm (sort_devices collator ds s ctx) ds
        × InOrder
            (Before collator s.dir)
            (Equal collator)
            (by_hostname collator)
            (λ d. value d s.key ctx)
            (sort_devices collator ds s ctx)
  sort_devices-InOrder ds =
      let (same, sorted) = sort_devices-IsSorted ds in
      (
        same,
        InOrder-of_IsSorted (Before collator s.dir) (Equal collator) (by_hostname collator)
            (λ d. value d s.key ctx) (compare_rows collator s ctx)
            (λ a b. may_precede collator s.dir a (value a s.key ctx) b (value b s.key ctx))
            (sort_devices collator ds s ctx) sorted,
      )

  -- Rows that tie keep the order in which they were given.
  pub sort_devices_stable :
      (d : Device) (ds : List Device)
      → filter (λ e. is_eq (compare_rows collator s ctx d e)) (sort_devices collator ds s ctx)
        ≡ filter (λ e. is_eq (compare_rows collator s ctx d e)) ds
  sort_devices_stable d ds = rw (sort_devices-eq ds) (sort_stable rows-IsOrder d ds)

  abbrev pub is_known : Device → Bool
  is_known d = is_some (value d s.key ctx)

  unknown_last :
      (a b : Device) → is_known a ≡ false → is_known b ≡ true → compare_rows collator s ctx a b ≡ gt
  unknown_last a b h k = ground arith

  -- In either direction the rows whose value is not known stand behind all the others.
  pub sort_devices_unknown_last :
      (ds : List Device)
      → sort_devices collator ds s ctx
        ≡ filter is_known (sort_devices collator ds s ctx)
          ++ filter (λ d. not (is_known d)) (sort_devices collator ds s ctx)
  sort_devices_unknown_last ds =
      IsSorted-split is_known unknown_last (sort_devices collator ds s ctx)
        (sort_devices-IsSorted ds).1
