-- ===== src/Bulk/Selection.antt =====
-- `partition`: frontend/src/pages/devices/bulk.ts, lines 41 to 61. The `Map` of counts keeps its
-- keys in the order in which they were first set.
use rmm_rxf_sys_de.Base.{
  ℕ, ◌+◌, ◌≡◌, refl, ◌∙◌, sym, Bool, true, false, not, ◌&&◌, String, Option, none, some, List, [],
  ◌∷◌, ◌++◌, arith, length, filter, count, sum_of, find, all, length-append, str_eq, eq_iff,
  if◌then◌else◌, Option-cases, inl, inr,
}
use mathlib.Core.List.{append-nil, append_assoc}
use rmm_rxf_sys_de.Fleet.Types.{Device}
use rmm_rxf_sys_de.Fleet.Status.{is_agent}

unfoldable pub reachable : Device → Bool
reachable d = is_agent d && d.connected

pub record Rule : Type 0 where
  pub test : Device → Bool
  pub reason : String

pub record Skipped : Type 0 where
  pub reason : String
  pub count : ℕ

-- `counts.get(reason) ?? 0`
unfoldable pub count_of : String → List Skipped → ℕ
count_of reason [] = 0
count_of reason (s ∷ counts) = if str_eq s.reason reason then s.count else count_of reason counts

-- `counts.set(reason, n)`
unfoldable pub set_count : String → ℕ → List Skipped → List Skipped
set_count reason n [] = record { reason = reason; count = n } ∷ []
set_count reason n (s ∷ counts) =
    if str_eq s.reason reason
    then record { reason = reason; count = n } ∷ counts
    else s ∷ set_count reason n counts

pub record Partition : Type 0 where
  pub targets : List Device
  pub skipped : List Skipped

abbrev pub first_failed : List Rule → Device → Option Rule
first_failed rules d = find (λ r. not (r.test d)) rules

-- One round of the loop.
sort_out : List Rule → Partition → Device → Partition
sort_out rules p d = elim (first_failed rules d) [
  | some r ↦ record p { skipped = set_count r.reason (count_of r.reason p.skipped + 1) p.skipped }
  | none ↦ record p { targets = p.targets ++ d ∷ [] }
]

sort_out_all : List Rule → Partition → List Device → Partition
unfolding sort_out
sort_out_all rules p [] = p
sort_out_all rules p (d ∷ ds) = sort_out_all rules (sort_out rules p d) ds

unfoldable pub partition : List Device → List Rule → Partition
unfolding sort_out_all
partition devices rules = sort_out_all rules (record { targets = []; skipped = [] }) devices

-- The action applies to the device.
abbrev pub passes : List Rule → Device → Bool
passes rules d = all (λ r. r.test d) rules

-- The device is skipped for `reason`: the first rule that it fails says so.
abbrev pub fails_for : List Rule → String → Device → Bool
fails_for rules reason d = elim (first_failed rules d) [
  | none ↦ false
  | some r ↦ str_eq r.reason reason
]

passes-first_failed :
    (rules : List Rule) (d : Device)
    → passes rules d ≡ elim (first_failed rules d) [ none ↦ true | some r ↦ false ]
passes-first_failed [] d = refl
passes-first_failed (r ∷ rules) d = ground (arith, passes-first_failed rules d)

count_of-set_count :
    (r q : String) (n : ℕ) (counts : List Skipped)
    → count_of q (set_count r n counts) ≡ (if str_eq r q then n else count_of q counts)
unfolding count_of set_count
count_of-set_count r q n [] = refl
count_of-set_count r q n (s ∷ counts) =
    ground
      (arith, eq_iff r q, eq_iff s.reason r, eq_iff s.reason q, count_of-set_count r q n counts)

abbrev total : List Skipped → ℕ
total counts = sum_of (λ s. s.count) counts

total-set_count :
    (r : String) (counts : List Skipped)
    → total (set_count r (count_of r counts + 1) counts) ≡ total counts + 1
unfolding count_of set_count
total-set_count r [] = refl
total-set_count r (s ∷ counts) = ground (arith, total-set_count r counts)

module _ (rules : List Rule) where
  targets-sort_out_all :
      (p : Partition) (ds : List Device)
      → (sort_out_all rules p ds).targets ≡ p.targets ++ filter (passes rules) ds
  unfolding sort_out_all
  targets-sort_out_all p [] = sym (append-nil p.targets)
  targets-sort_out_all p (d ∷ ds) = ground (
    arith,
    targets-sort_out_all (sort_out rules p d) ds,
    passes-first_failed rules d,
    append_assoc p.targets (d ∷ []) (filter (passes rules) ds),
  )

  skipped-sort_out_all :
      (reason : String) (p : Partition) (ds : List Device)
      → count_of reason (sort_out_all rules p ds).skipped
        ≡ count_of reason p.skipped + count (fails_for rules reason) ds
  unfolding sort_out_all
  skipped-sort_out_all reason p [] = omega arith
  skipped-sort_out_all reason p (d ∷ ds) = elim (Option-cases (first_failed rules d)) [
    | inl passed ↦ ground (arith, skipped-sort_out_all reason (sort_out rules p d) ds)
    | inr (r, failed) ↦ ground (
      arith,
      skipped-sort_out_all reason (sort_out rules p d) ds,
      eq_iff r.reason reason,
      count_of-set_count r.reason reason (count_of r.reason p.skipped + 1) p.skipped,
    )
  ]

  all-sort_out_all :
      (p : Partition) (ds : List Device)
      → length (sort_out_all rules p ds).targets + total (sort_out_all rules p ds).skipped
        ≡ length p.targets + total p.skipped + length ds
  unfolding sort_out_all
  all-sort_out_all p [] = omega arith
  all-sort_out_all p (d ∷ ds) = elim (Option-cases (first_failed rules d)) [
    | inl passed ↦
        ground (arith, all-sort_out_all (sort_out rules p d) ds, length-append p.targets (d ∷ []))
    | inr (r, failed) ↦
        ground (arith, all-sort_out_all (sort_out rules p d) ds, total-set_count r.reason p.skipped)
  ]

-- The action runs on exactly the devices that pass every rule, in the order of the selection; each
-- reason is given with the number of devices whose first failed rule names it; and the two together
-- account for every selected device.
pub partition_lem :
    (devices : List Device) (rules : List Rule)
    → ((partition devices rules).targets ≡ filter (passes rules) devices)
      × ((reason : String)
          → count_of reason (partition devices rules).skipped
            ≡ count (fails_for rules reason) devices)
      × (length (partition devices rules).targets
            + sum_of (λ s. s.count) (partition devices rules).skipped
          ≡ length devices)
unfolding partition count_of
partition_lem devices rules =
    let none_yet : Partition = record { targets = []; skipped = [] } in
    (
      targets-sort_out_all rules none_yet devices,
      (λ reason. skipped-sort_out_all rules reason none_yet devices ∙ omega arith),
      all-sort_out_all rules none_yet devices ∙ omega arith,
    )
