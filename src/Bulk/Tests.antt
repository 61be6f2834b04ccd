-- ===== src/Bulk/Tests.antt =====
-- The properties of bulk actions at a small round: frontend/src/pages/devices/bulk.ts.
use rmm_rxf_sys_de.Base.{
  ℕ, ◌+◌, ◌≤◌, ◌<◌, ◌≡◌, refl, ◌⊎◌, String, List, [], ◌∷◌, arith, length, count, leb,
}
use rmm_rxf_sys_de.Bulk.Run.{Bulk, resolved, rejected, start, settle, settles, Steps, here, next}
use rmm_rxf_sys_de.Bulk.Run.Complete.{unsettled, failed_items, bulk_progress, bulk_complete}
use rmm_rxf_sys_de.Bulk.Selection.{Rule, reachable}

abbrev items : List ℕ
items = 10 ∷ 20 ∷ 30 ∷ []

-- Two workers; the second call fails first.
abbrev one_settled : Bulk ℕ String
one_settled = settle (10 ∷ []) 20 [] (rejected "offline") (start 2 items)

abbrev two_settled : Bulk ℕ String
two_settled = settle [] 10 (30 ∷ []) resolved one_settled

abbrev all_settled : Bulk ℕ String
all_settled = settle [] 30 [] resolved two_settled

two_settled-Steps : Steps (start 2 items) 2 two_settled
unfolding start settle
two_settled-Steps =
    next (next here (settles (start 2 items) (10 ∷ []) [] 20 (rejected "offline") refl))
      (settles one_settled [] (30 ∷ []) 10 resolved refl)

all_settled-Steps : Steps (start 2 items) 3 all_settled
unfolding start settle
all_settled-Steps = next two_settled-Steps (settles two_settled [] [] 30 resolved refl)

bulk_progress_example :
    (length two_settled.running ≤ 2)
    × (unsettled two_settled + 2 ≡ 3)
    × ((2 ≡ length items) ⊎ (0 < length two_settled.running))
bulk_progress_example = bulk_progress 2 items 2 two_settled (omega arith) two_settled-Steps

bulk_complete_example :
    count (λ n. leb 20 n) all_settled.ok + count (λ n. leb 20 n) (failed_items all_settled) ≡ 2
unfolding start settle
bulk_complete_example =
    bulk_complete 2 items 3 all_settled (λ n. leb 20 n) (omega arith) all_settled-Steps refl

abbrev rules : List Rule
rules =
    record { test = λ d. leb 2 d.id; reason = "nicht möglich" }
    ∷ record { test = reachable; reason = "nicht verbunden" }
    ∷ []
