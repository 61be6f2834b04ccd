-- ===== src/Patches/Stats/Laws.antt =====
-- The summary counts what the filters keep, and the cards add up to the summary:
-- frontend/src/pages/patches/patchList.ts.
use rmm_rxf_sys_de.Base.{ℕ, ◌+◌, ◌≡◌, ◌∙◌, List, [], ◌∷◌, arith, length, count, sum_of, or_else}
use rmm_rxf_sys_de.Fleet.Types.{Device, PatchSummary}
use rmm_rxf_sys_de.Patches.Filter.{
  sicherheit, offen, aktuell, ungeprueft, matches_state, never_scanned, pending_of, security_of,
}
use rmm_rxf_sys_de.Patches.Stats.{PatchStats, tally, tally_all, zero_stats, patch_stats}

module _ (ps : PatchSummary) (now : ℕ) where
  -- What the loop adds to `s` over the devices.
  abbrev added : PatchStats → List Device → PatchStats
  added s ds = record s {
    with_pending = s.with_pending + count (λ d. matches_state d offen ps now) ds;
    pending = s.pending + sum_of (λ d. or_else (pending_of d ps) 0) ds;
    security = s.security + sum_of (λ d. security_of d ps) ds;
    security_devices = s.security_devices + count (λ d. matches_state d sicherheit ps now) ds;
    stale = s.stale + count (λ d. matches_state d ungeprueft ps now) ds;
    never = s.never + count never_scanned ds;
    current = s.current + count (λ d. matches_state d aktuell ps now) ds;
  }

  tally-added :
      (s : PatchStats) (d : Device) (ds : List Device)
      → added (tally ps now s d) ds ≡ added s (d ∷ ds)
  unfolding tally matches_state
  tally-added s d ds = ground arith

  tally_all-added : (s : PatchStats) (ds : List Device) → tally_all ps now s ds ≡ added s ds
  unfolding tally_all
  tally_all-added s [] = ground arith
  tally_all-added s (d ∷ ds) =
      ground (arith, tally_all-added (tally ps now s d) ds, tally-added s d ds)

-- Every figure of the summary is the number of devices that the filter of that name keeps, and
-- the sums run over the devices: the header of the page and the list below it agree.
pub patch_stats-eq-counts :
    (devices : List Device) (ps : PatchSummary) (now : ℕ)
    → patch_stats devices ps now ≡ record {
      devices = length devices;
      with_pending = count (λ d. matches_state d offen ps now) devices;
      pending = sum_of (λ d. or_else (pending_of d ps) 0) devices;
      security = sum_of (λ d. security_of d ps) devices;
      security_devices = count (λ d. matches_state d sicherheit ps now) devices;
      stale = count (λ d. matches_state d ungeprueft ps now) devices;
      never = count never_scanned devices;
      current = count (λ d. matches_state d aktuell ps now) devices;
    }
unfolding patch_stats
patch_stats-eq-counts devices ps now =
    tally_all-added ps now (zero_stats (length devices)) devices ∙ ground arith
