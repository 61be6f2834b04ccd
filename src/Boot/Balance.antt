-- ===== src/Boot/Balance.antt =====
-- The loop that fixes the rounding: frontend/src/boot/bootPlan.ts, lines 94 to 101.
use rmm_rxf_sys_de.Base.{
  ℕ, zero, suc, ◌+◌, ◌-◌, ◌≤◌, ◌<◌, ◌≡◌, refl, Bool, true, false, List, [], ◌∷◌, map, ltb, count,
  count-le-length, length, arith, if◌then◌else◌,
}
use rmm_rxf_sys_de.Boot.{total, highest, adjust, balance, distance}

highest-total : (ns : List ℕ) → highest ns ≤ total ns
highest-total [] = omega arith
highest-total (n ∷ ns) = ground (arith, highest-total ns)

highest-positive : (ns : List ℕ) → 0 < total ns → 0 < highest ns
highest-positive [] h = ground arith
highest-positive (n ∷ ns) h = ground (arith, highest-positive ns)

-- A round of the loop changes the sum by one.
total-raise :
    (ns : List ℕ) (m : ℕ)
    → m ≡ highest ns
    → 0 < length ns
    → total (adjust false m ns) ≡ total ns + 1
unfolding adjust
total-raise [] m e h = ground arith
total-raise (n ∷ []) m e h = ground arith
total-raise (n ∷ k ∷ ns) m e h = ground (arith, total-raise (k ∷ ns) m)

total-lower :
    (ns : List ℕ) (m : ℕ) → m ≡ highest ns → 0 < m → total (adjust true m ns) + 1 ≡ total ns
unfolding adjust
total-lower [] m e h = ground arith
total-lower (n ∷ ns) m e h = ground (arith, total-lower ns m)

abbrev pub occurs : List ℕ → List Bool
occurs ns = map (ltb 0) ns

occurs-raise : (ns : List ℕ) (m : ℕ) → 0 < m → occurs (adjust false m ns) ≡ occurs ns
unfolding adjust
occurs-raise [] m h = refl
occurs-raise (n ∷ ns) m h = ground (arith, occurs-raise ns m)

occurs-lower : (ns : List ℕ) (m : ℕ) → 1 < m → occurs (adjust true m ns) ≡ occurs ns
unfolding adjust
occurs-lower [] m h = refl
occurs-lower (n ∷ ns) m h = ground (arith, occurs-lower ns m)

-- If no count is above one, the sum is the number of counts that are not zero.
total-flat : (ns : List ℕ) → highest ns ≤ 1 → total ns ≡ count (ltb 0) ns
total-flat [] h = refl
total-flat (n ∷ ns) h = ground (arith, total-flat ns)

length-adjust : (down : Bool) (m : ℕ) (ns : List ℕ) → length (adjust down m ns) ≡ length ns
unfolding adjust
length-adjust down m [] = refl
length-adjust down m (n ∷ ns) = ground (arith, length-adjust down m ns)

-- The loop ends: with the distance of the sum from `n` as fuel, or any more, the counts add up to
-- `n` exactly.
pub balance_terminates :
    (fuel n : ℕ) (ns : List ℕ) (sum : ℕ)
    → sum ≡ total ns
    → 0 < length ns
    → distance sum n ≤ fuel
    → total (balance fuel n ns sum) ≡ n
unfolding balance
balance_terminates zero n ns sum e h d = ground arith
balance_terminates (suc fuel) n ns sum e h d = ground (
  arith,
  highest-total ns,
  highest-positive ns,
  total-raise ns (highest ns) refl,
  total-lower ns (highest ns) refl,
  length-adjust true (highest ns) ns,
  length-adjust false (highest ns) ns,
  balance_terminates fuel n (adjust true (highest ns) ns) (sum - 1),
  balance_terminates fuel n (adjust false (highest ns) ns) (sum + 1),
)

pub count-occurs : (ms ns : List ℕ) → occurs ms ≡ occurs ns → count (ltb 0) ms ≡ count (ltb 0) ns
count-occurs [] [] h = refl
count-occurs [] (n ∷ ns) h = ground arith
count-occurs (m ∷ ms) [] h = ground arith
count-occurs (m ∷ ms) (n ∷ ns) h = ground (arith, count-occurs ms ns)

count-positive : (ns : List ℕ) → 0 < total ns → 0 < count (ltb 0) ns
count-positive [] h = ground arith
count-positive (n ∷ ns) h = ground (arith, count-positive ns)

-- The loop neither empties a count nor fills an empty one, as long as `n` has room for a dot of each.
pub occurs-balance :
    (fuel n : ℕ) (ns : List ℕ) (sum : ℕ)
    → sum ≡ total ns
    → 0 < sum
    → count (ltb 0) ns ≤ n
    → occurs (balance fuel n ns sum) ≡ occurs ns
unfolding balance
occurs-balance zero n ns sum e h r = refl
occurs-balance (suc fuel) n ns sum e h r = ground (
  arith,
  highest-positive ns,
  highest-total ns,
  count-positive ns,
  count-le-length (ltb 0) ns,
  total-flat ns,
  total-raise ns (highest ns) refl,
  total-lower ns (highest ns) refl,
  occurs-lower ns (highest ns),
  occurs-raise ns (highest ns),
  count-occurs (adjust true (highest ns) ns) ns,
  count-occurs (adjust false (highest ns) ns) ns,
  occurs-balance fuel n (adjust true (highest ns) ns) (sum - 1),
  occurs-balance fuel n (adjust false (highest ns) ns) (sum + 1),
)

pub length-balance :
    (fuel n : ℕ) (ns : List ℕ) (sum : ℕ) → length (balance fuel n ns sum) ≡ length ns
unfolding balance
length-balance zero n ns sum = refl
length-balance (suc fuel) n ns sum = ground (
  arith,
  length-adjust (ltb n sum) (highest ns) ns,
  length-balance fuel n (adjust (ltb n sum) (highest ns) ns)
      (if ltb n sum then sum - 1 else sum + 1),
)
