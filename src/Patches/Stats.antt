-- ===== src/Patches/Stats.antt =====
-- frontend/src/pages/patches/patchList.ts, lines 237 to 317: the figures above the list and the
-- cards of the system groups.
pub mod Laws
pub mod Cards
use rmm_rxf_sys_de.Base.{ℕ, ◌+◌, List, [], ◌∷◌, map, ltb, length, if◌then◌else◌, filter, or_else}
use rmm_rxf_sys_de.Fleet.Types.{Device, PatchSummary}
use rmm_rxf_sys_de.Patches.Filter.{
  OsCategory, os_categories, category_of, same_category, pending_of, security_of, never_scanned,
  scan_stale, is_current,
}

pub record PatchStats : Type 0 where
  pub devices : ℕ
  pub with_pending : ℕ
  pub pending : ℕ
  pub security : ℕ
  pub security_devices : ℕ
  pub stale : ℕ
  pub never : ℕ
  pub current : ℕ

module _ (ps : PatchSummary) (now : ℕ) where
  -- One round of the loop.
  tally : PatchStats → Device → PatchStats
  tally s d =
      let pending = or_else (pending_of d ps) 0 in
      let security = security_of d ps in
      record s {
        pending = s.pending + pending;
        security = s.security + security;
        with_pending = if ltb 0 pending then s.with_pending + 1 else s.with_pending;
        security_devices = if ltb 0 security then s.security_devices + 1 else s.security_devices;
        stale = if scan_stale d now then s.stale + 1 else s.stale;
        never = if never_scanned d then s.never + 1 else s.never;
        current = if is_current d ps then s.current + 1 else s.current;
      }

  tally_all : PatchStats → List Device → PatchStats
  unfolding tally
  tally_all s [] = s
  tally_all s (d ∷ ds) = tally_all (tally s d) ds

abbrev zero_stats : ℕ → PatchStats
zero_stats n = record {
  devices = n;
  with_pending = 0;
  pending = 0;
  security = 0;
  security_devices = 0;
  stale = 0;
  never = 0;
  current = 0;
}

unfoldable pub patch_stats : List Device → PatchSummary → ℕ → PatchStats
unfolding tally_all
patch_stats devices ps now = tally_all ps now (zero_stats (length devices)) devices

pub record CategoryStat : Type 0 where
  pub id : OsCategory
  pub total : ℕ
  pub current : ℕ
  pub pending : ℕ
  pub security : ℕ
  pub security_devices : ℕ
  pub stale : ℕ

-- The card of one group.
unfoldable pub category_stat : List Device → PatchSummary → ℕ → OsCategory → CategoryStat
unfolding patch_stats
category_stat devices ps now id =
    let s = patch_stats (filter (λ d. same_category (category_of d) id) devices) ps now in
    record {
      id = id;
      total = s.devices;
      current = s.current;
      pending = s.pending;
      security = s.security;
      security_devices = s.security_devices;
      stale = s.stale;
    }

unfoldable pub category_stats : List Device → PatchSummary → ℕ → List CategoryStat
unfolding category_stat
category_stats devices ps now =
    filter (λ c. ltb 0 c.total) (map (category_stat devices ps now) os_categories)
