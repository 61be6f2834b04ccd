-- ===== src/Alerts/Order/Laws.antt =====
-- The order of the alert list: frontend/src/pages/alerts/alertList.ts, lines 91 to 110.
use Prim.Native.Nat.Ordering.{gt}
use mathlib.Core.List.{Perm}
use rmm_rxf_sys_de.Base.{
  ℕ, ◌≤◌, ◌<◌, ◌≡◌, ◌≢◌, refl, ◌∙◌, ap, ◌⊎◌, inl, inr, List, [], ◌∷◌, map, arith, All, compare,
  or_else,
}
use rmm_rxf_sys_de.Base.Compare.{
  Comparator, IsOrder, on, on-IsOrder, flip-IsOrder, then_by-IsOrder, compare-IsOrder,
  IsOrder-of_eq,
}
use rmm_rxf_sys_de.Base.Sort.{sort, IsSorted, sort-perm, sort-IsSorted, sort-map}
use rmm_rxf_sys_de.Fleet.Types.{Alert}
use rmm_rxf_sys_de.Alerts.Tabs.{Tab, behoben, tab_of}
use rmm_rxf_sys_de.Alerts.Order.{
  urgency, AlertContext, tab_rank, Keyed, keyed, compare_keyed, sort_alerts,
}

newest_first : (f : Keyed → ℕ) → IsOrder (λ x y. compare (f y) (f x))
newest_first f = IsOrder-of_eq (λ x y. ground arith) (flip-IsOrder (on-IsOrder f compare-IsOrder))

compare_keyed-IsOrder : IsOrder compare_keyed
compare_keyed-IsOrder = then_by-IsOrder (on-IsOrder (λ k. k.tab) compare-IsOrder) (
    then_by-IsOrder (on-IsOrder (λ k. k.rank) compare-IsOrder)
      (then_by-IsOrder (newest_first (λ k. k.ts)) (newest_first (λ k. k.a.id))))

precede_or :
    (x y : Keyed)
    → compare_keyed x y ≢ gt
    → (x.tab < y.tab) ⊎ (x.tab ≡ y.tab) × ((x.rank < y.rank) ⊎ (x.rank ≡ y.rank) × (y.ts ≤ x.ts))
precede_or x y h = ground arith

tab_rank-injective : (s t : Tab) → tab_rank s ≡ tab_rank t → s ≡ t
tab_rank-injective s t h = ground arith

module _ (ctx : AlertContext) where
  -- The urgency of an alert that is not resolved; history has none.
  abbrev pub rank : Alert → ℕ
  rank a = elim (tab_of a) [ behoben ↦ 0 | _ ↦ urgency a (ctx.device_of a.device_id) ctx.now ]

  abbrev pub stamp : Alert → ℕ
  stamp a = or_else a.resolved_at a.fired_at

  -- `a` may stand before `b`: its tab comes first, or in the same tab it is more urgent, or at the
  -- same urgency it is no older.
  abbrev pub MayPrecede : Alert → Alert → Type 0
  MayPrecede a b =
      (tab_rank (tab_of a) < tab_rank (tab_of b))
      ⊎ (tab_of a ≡ tab_of b) × ((rank a < rank b) ⊎ (rank a ≡ rank b) × (stamp b ≤ stamp a))

  -- Every alert may stand before all that come after it.
  abbrev pub InOrder : List Alert → Type 0
  InOrder [] = Unit
  InOrder (a ∷ list) = All (MayPrecede a) list × InOrder list

  abbrev rows : Comparator Alert
  rows = on (keyed ctx) compare_keyed

  MayPrecede-of_rows : (a b : Alert) → rows a b ≢ gt → MayPrecede a b
  unfolding keyed
  MayPrecede-of_rows a b h = elim (precede_or (keyed ctx a) (keyed ctx b) h) [
    | inl p ↦ inl p
    | inr (p, q) ↦ inr (tab_rank-injective (tab_of a) (tab_of b) p, q)
  ]

  All-of_rows :
      (a : Alert) (list : List Alert) → All (λ b. rows a b ≢ gt) list → All (MayPrecede a) list
  All-of_rows a [] h = tt
  All-of_rows a (b ∷ list) (p, h) = (MayPrecede-of_rows a b p, All-of_rows a list h)

  InOrder-of_IsSorted : (list : List Alert) → IsSorted rows list → InOrder list
  InOrder-of_IsSorted [] h = tt
  InOrder-of_IsSorted (a ∷ list) (p, h) = (All-of_rows a list p, InOrder-of_IsSorted list h)

  map-keyed : (list : List Alert) → map (λ k. k.a) (map (keyed ctx) list) ≡ list
  unfolding keyed
  map-keyed [] = refl
  map-keyed (a ∷ list) = ap (◌∷◌ a) (map-keyed list)

  sort_alerts-eq : (list : List Alert) → sort_alerts list ctx ≡ sort rows list
  unfolding sort_alerts
  sort_alerts-eq list =
      ap (map (λ (k : Keyed). k.a)) (sort-map (keyed ctx) compare_keyed list)
      ∙ map-keyed (sort rows list)

  -- The list shows every alert once, open before acknowledged before resolved, within a tab the
  -- more urgent first (of the resolved none is), and at equal urgency the newest.
  pub sort_alerts-InOrder :
      (list : List Alert) → Perm (sort_alerts list ctx) list × InOrder (sort_alerts list ctx)
  sort_alerts-InOrder list = rw (sort_alerts-eq list) (
    sort-perm rows list,
    InOrder-of_IsSorted (sort rows list)
        (sort-IsSorted (on-IsOrder (keyed ctx) compare_keyed-IsOrder) list),
  )
