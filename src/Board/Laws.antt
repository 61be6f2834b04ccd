-- ===== src/Board/Laws.antt =====
-- The numbers on the filter of the overview and the order of its tiles:
-- frontend/src/pages/overview/fleetBoard.ts, lines 82 to 108.
use Prim.Native.Nat.Ordering.{gt}
use mathlib.Core.List.{Perm}
use rmm_rxf_sys_de.Base.{
  ℕ, ◌+◌, ◌≡◌, ◌≤◌, ◌∙◌, none, List, [], ◌∷◌, map, arith, length, All, compare, ◌<◌, ◌⊎◌, ◌≢◌,
  if◌then◌else◌,
}
use rmm_rxf_sys_de.Base.Compare.{
  IsOrder, IsOrder-of_eq, on-IsOrder, flip-IsOrder, then_by-IsOrder, compare-IsOrder,
}
use rmm_rxf_sys_de.Base.Sort.{sort, sort-perm, sort-IsSorted, IsSorted}
use rmm_rxf_sys_de.Base.Text.{Collator}
use rmm_rxf_sys_de.Fleet.Types.{Device, Alert, PatchSummary}
use rmm_rxf_sys_de.Fleet.Status.{DeviceStatusKind}
use rmm_rxf_sys_de.Board.{
  Tile, only, tile_of, kind_rank, compare_tiles, build_tiles, KindCounts, count_at, count_one,
  count_kinds, count_by_kind, same_kind, filter_tiles,
}

more_first : (f : Tile → ℕ) → IsOrder (λ x y. compare (f y) (f x))
more_first f = IsOrder-of_eq (λ x y. ground arith) (flip-IsOrder (on-IsOrder f compare-IsOrder))

compare_tiles-IsOrder : (collator : Collator) → IsOrder (compare_tiles collator)
compare_tiles-IsOrder collator =
    then_by-IsOrder (on-IsOrder (λ t. kind_rank t.kind) compare-IsOrder) (
      then_by-IsOrder (more_first (λ t. t.open_alerts)) (
        then_by-IsOrder (more_first (λ t. t.security)) (
          then_by-IsOrder (more_first (λ t. t.pending))
            (on-IsOrder (λ t. t.device.hostname) collator.order))))

-- `a` may stand before `b`: its state comes first, or in the same state it has more open alerts, or
-- as many and more security updates, or as many and no fewer updates.
abbrev pub MayPrecede : Tile → Tile → Type 0
MayPrecede a b =
    (kind_rank a.kind < kind_rank b.kind)
    ⊎ (a.kind ≡ b.kind)
      × ((b.open_alerts < a.open_alerts)
          ⊎ (a.open_alerts ≡ b.open_alerts)
            × ((b.security < a.security) ⊎ (a.security ≡ b.security) × (b.pending ≤ a.pending)))

-- Every tile may stand before all that come after it.
abbrev pub InOrder : List Tile → Type 0
InOrder [] = Unit
InOrder (a ∷ tiles) = All (MayPrecede a) tiles × InOrder tiles

kind_rank-injective : (k l : DeviceStatusKind) → kind_rank k ≡ kind_rank l → k ≡ l
kind_rank-injective k l h = ground arith

MayPrecede-of_compare :
    (collator : Collator) (a b : Tile) → compare_tiles collator a b ≢ gt → MayPrecede a b
MayPrecede-of_compare collator a b h = ground (arith, kind_rank-injective a.kind b.kind)

All-of_compare :
    (collator : Collator) (a : Tile) (tiles : List Tile)
    → All (λ b. compare_tiles collator a b ≢ gt) tiles
    → All (MayPrecede a) tiles
All-of_compare collator a [] h = tt
All-of_compare collator a (b ∷ tiles) (p, h) =
    (MayPrecede-of_compare collator a b p, All-of_compare collator a tiles h)

InOrder-of_IsSorted :
    (collator : Collator) (tiles : List Tile)
    → IsSorted (compare_tiles collator) tiles
    → InOrder tiles
InOrder-of_IsSorted collator [] h = tt
InOrder-of_IsSorted collator (a ∷ tiles) (p, h) =
    (All-of_compare collator a tiles p, InOrder-of_IsSorted collator tiles h)

-- The board has one tile for each device, ordered by state, the worst first, then by open alerts,
-- security updates and updates, most first.
pub build_tiles-InOrder :
    (collator : Collator) (devices : List Device) (ps : PatchSummary) (alerts : List Alert)
    → Perm (build_tiles collator devices ps alerts) (map (tile_of ps alerts) devices)
      × InOrder (build_tiles collator devices ps alerts)
unfolding build_tiles
build_tiles-InOrder collator devices ps alerts =
    let tiles = map (tile_of ps alerts) devices in
    (
      sort-perm (compare_tiles collator) tiles,
      InOrder-of_IsSorted collator (sort (compare_tiles collator) tiles)
          (sort-IsSorted (compare_tiles-IsOrder collator) tiles),
    )

unfoldable total : KindCounts → ℕ
total c = c.danger + c.warn + c.off + c.ok + c.noagent

count_at-count_one :
    (k l : DeviceStatusKind) (c : KindCounts)
    → count_at k (count_one l c) ≡ count_at k c + (if same_kind l k then 1 else 0)
count_at-count_one k l c = ground arith

total-count_one : (l : DeviceStatusKind) (c : KindCounts) → total (count_one l c) ≡ total c + 1
unfolding total
total-count_one l c = ground arith

count_at-count_kinds :
    (k : DeviceStatusKind) (c : KindCounts) (tiles : List Tile)
    → count_at k (count_kinds c tiles) ≡ count_at k c + length (filter_tiles tiles (only k) none)
unfolding count_kinds filter_tiles
count_at-count_kinds k c [] = omega arith
count_at-count_kinds k c (t ∷ tiles) =
    ground (arith, count_at-count_one k t.kind c, count_at-count_kinds k (count_one t.kind c) tiles)

total-count_kinds :
    (c : KindCounts) (tiles : List Tile) → total (count_kinds c tiles) ≡ total c + length tiles
unfolding total count_kinds
total-count_kinds c [] = omega arith
total-count_kinds c (t ∷ tiles) =
    omega (arith, total-count_one t.kind c, total-count_kinds (count_one t.kind c) tiles)

-- The number on each state is the number of tiles that its filter shows, and together they are all
-- the tiles.
pub count_by_kind_lem :
    (tiles : List Tile)
    → ((k : DeviceStatusKind)
        → count_at k (count_by_kind tiles) ≡ length (filter_tiles tiles (only k) none))
      × ((count_by_kind tiles).danger
            + (count_by_kind tiles).warn
            + (count_by_kind tiles).off
            + (count_by_kind tiles).ok
            + (count_by_kind tiles).noagent
          ≡ length tiles)
unfolding count_by_kind total
count_by_kind_lem tiles =
    let none_yet : KindCounts = record { danger = 0; warn = 0; off = 0; ok = 0; noagent = 0 } in
    (
      λ k. count_at-count_kinds k none_yet tiles ∙ ground arith,
      omega (arith, total-count_kinds none_yet tiles),
    )
