-- ===== src/Palette/Rank.antt =====
-- The devices that match, best first: frontend/src/shell/palette/ranking.ts, lines 18 to 19 and 120
-- to 166.
use mathlib.Core.List.{Perm}
use rmm_rxf_sys_de.Base.{
  ℕ, ◌<◌, ◌≡◌, refl, Bool-cases, inl, inr, ◌∙◌, String, Option, List, [], ◌∷◌, map, All, length,
  take, count, min, ltb, compare, Ordering, arith, if◌then◌else◌, length-take, length-map,
}
use rmm_rxf_sys_de.Base.Compare.{
  then_by, IsOrder, IsOrder-of_eq, on-IsOrder, flip-IsOrder, then_by-IsOrder, compare-IsOrder,
}
use rmm_rxf_sys_de.Base.Sort.{sort, sort-perm, length-sort, sort-IsSorted, IsSorted}
use rmm_rxf_sys_de.Base.Text.{Collator}
use rmm_rxf_sys_de.Palette.Score.{Texts, DeviceEntry, score_query, entry_score, explaining_tag}

abbrev pub max_device_rows : ℕ
max_device_rows = 50

pub record Scored : Type 0 where
  pub entry : DeviceEntry
  pub score : ℕ

pub record DeviceHit : Type 0 where
  pub entry : DeviceEntry
  pub score : ℕ
  pub tag : Option String

module _ (texts : Texts) (collator : Collator) (query : String) where
  abbrev pub score_of : DeviceEntry → ℕ
  score_of e = score_query texts query (entry_score texts e)

  -- The loop that collects the entries with a score.
  unfoldable pub scored : List DeviceEntry → List Scored
  scored [] = []
  scored (e ∷ index) =
      let rest = scored index in
      if ltb 0 (score_of e) then record { entry = e; score = score_of e } ∷ rest else rest

  abbrev pub by_rank : Scored → Scored → Ordering
  by_rank a b = then_by (compare b.score a.score) (
      then_by (collator.compare a.entry.device.hostname b.entry.device.hostname)
        (compare a.entry.device.id b.entry.device.id))

  abbrev pub hit_of : Scored → DeviceHit
  hit_of s = record { entry = s.entry; score = s.score; tag = explaining_tag texts s.entry query }

  unfoldable pub rank_devices : List DeviceEntry → ℕ → List DeviceHit × ℕ
  rank_devices index limit =
      let best = sort by_rank (scored index) in (map hit_of (take limit best), length best)

  length-scored :
      (index : List DeviceEntry) → length (scored index) ≡ count (λ e. ltb 0 (score_of e)) index
  unfolding scored
  length-scored [] = refl
  length-scored (e ∷ index) = ground (arith, length-scored index)

  abbrev pub OfQuery : Scored → Type 0
  OfQuery s = (0 < s.score) × (s.score ≡ score_of s.entry)

  scored-All : (index : List DeviceEntry) → All OfQuery (scored index)
  unfolding scored
  scored-All [] = tt
  scored-All (e ∷ index) = elim (Bool-cases (ltb 0 (score_of e))) [
    | inl hit ↦ rw (hit) ((ground (arith, hit), refl), scored-All index)
    | inr miss ↦ rw (miss) (scored-All index)
  ]

  score-IsOrder : IsOrder (λ (a b : Scored). compare b.score a.score)
  score-IsOrder =
      IsOrder-of_eq (λ a b. compare-IsOrder.anti a.score b.score)
        (flip-IsOrder (on-IsOrder (λ (s : Scored). s.score) compare-IsOrder))

  by_rank-IsOrder : IsOrder by_rank
  by_rank-IsOrder = then_by-IsOrder score-IsOrder (
      then_by-IsOrder (on-IsOrder (λ (s : Scored). s.entry.device.hostname) collator.order)
        (on-IsOrder (λ (s : Scored). s.entry.device.id) compare-IsOrder))

  -- The palette shows the best of the devices that match, at most as many as the limit, with the
  -- score each has for the query: a higher score first, then by hostname, then by id. Its total
  -- counts all devices that match.
  pub rank_devices_lem :
      (index : List DeviceEntry) (limit : ℕ)
      → (best : List Scored) × Perm best (scored index)
        × IsSorted by_rank best
        × All OfQuery (scored index)
        × ((rank_devices index limit).0 ≡ map hit_of (take limit best))
        × (length (rank_devices index limit).0 ≡ min limit (rank_devices index limit).1)
        × ((rank_devices index limit).1 ≡ count (λ e. ltb 0 (score_of e)) index)
  unfolding rank_devices
  rank_devices_lem index limit =
      let best = sort by_rank (scored index) in
      (
        best,
        sort-perm by_rank (scored index),
        sort-IsSorted by_rank-IsOrder (scored index),
        scored-All index,
        refl,
        length-map hit_of (take limit best) ∙ length-take limit best,
        length-sort by_rank (scored index) ∙ length-scored index,
      )
