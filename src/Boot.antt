-- ===== src/Boot.antt =====
-- The plan of the boot animation: frontend/src/boot/bootPlan.ts, lines 3 to 56 and 84 to 113.
pub mod Balance
pub mod Shuffle
pub mod Laws
mod Tests
use rmm_rxf_sys_de.Base.{
  ℕ, zero, suc, ◌+◌, ◌-◌, ◌*◌, Bool, true, Option, none, some, List, [], ◌∷◌, ◌++◌, map, ◌==◌, ltb,
  max, replicate, sum_of, length, get_elem?, if◌then◌else◌,
}
use Prim.Native.Nat.{◌%◌}

pub data BootMode : Type 0 where
  full quick still : BootMode

-- What the browser offers: a window, the wish for less motion, the animation API, and the session's
-- storage, which may refuse to be read or written.
pub record Browser : Type 0 where
  pub has_window : Bool
  pub reduced_motion : Bool
  pub can_animate : Bool
  pub storage_open : Bool
  pub seen : Bool

-- The mode, and the browser with the flag that the session has seen the show.
unfoldable pub decide_mode : Browser → BootMode × Browser
decide_mode b =
    if b.has_window
    then (if b.reduced_motion
        then (still, b)
        else (if b.can_animate
            then (if b.storage_open
                then (if b.seen then (quick, b) else (full, record b { seen = true }))
                else (quick, b))
            else (still, b)))
    else (still, b)

-- `bootMode()`: decided once per page load and remembered.
unfoldable pub boot_mode : Option BootMode × Browser → BootMode × (Option BootMode × Browser)
boot_mode (some mode, b) = (mode, (some mode, b))
boot_mode (none, b) = let (mode, after) = decide_mode b in (mode, (some mode, after))

pub record FleetMix : Type 0 where
  pub ok : ℕ
  pub warn : ℕ
  pub danger : ℕ
  pub off : ℕ

pub data State : Type 0 where
  danger warn off ok : State

abbrev pub amount : FleetMix → State → ℕ
amount mix danger = mix.danger
amount mix warn = mix.warn
amount mix off = mix.off
amount mix ok = mix.ok

abbrev pub keys : List State
keys = danger ∷ warn ∷ off ∷ ok ∷ []

-- `counts.reduce((a, b) => a + b, 0)`
abbrev pub total : List ℕ → ℕ
total ns = sum_of (λ n. n) ns

-- `Math.max(...counts)`
abbrev pub highest : List ℕ → ℕ
highest [] = 0
highest (n ∷ ns) = max n (highest ns)

-- `counts[counts.indexOf(m)] += sum > n ? -1 : 1`
unfoldable pub adjust : Bool → ℕ → List ℕ → List ℕ
adjust down m [] = []
adjust down m (n ∷ ns) =
    let rest = adjust down m ns in if n == m then (if down then n - 1 else n + 1) ∷ ns else n ∷ rest

-- The loop that makes the counts add up to `n`; the fuel bounds its rounds.
unfoldable pub balance : ℕ → ℕ → List ℕ → ℕ → List ℕ
balance zero n counts sum = counts
balance (suc fuel) n counts sum =
    let down = ltb n sum in
    let rest =
      balance fuel n (adjust down (highest counts) counts) (if down then sum - 1 else sum + 1) in
    if sum == n then counts else rest

-- `Math.round((mix[k] / total) * n)` is `share`, of the amount, the total and `n`.
abbrev pub first_count : (share : ℕ → ℕ → ℕ → ℕ) → ℕ → ℕ → ℕ → ℕ
first_count share n sum m = if ltb 0 m then max 1 (share m sum n) else 0

-- How far the sum is from `n`: as many rounds the loop needs.
abbrev pub distance : ℕ → ℕ → ℕ
distance a b = (a - b) + (b - a)

-- The dots of each state, one state after the other.
abbrev pub dots : List State → List ℕ → List State
dots [] ns = []
dots (k ∷ ks) [] = []
dots (k ∷ ks) (n ∷ ns) = replicate n k ++ dots ks ns

-- `xs[i] = x`
unfoldable pub set_at : ℕ → State → List State → List State
set_at i x [] = []
set_at zero x (y ∷ ys) = x ∷ ys
set_at (suc i) x (y ∷ ys) = y ∷ set_at i x ys

abbrev pub exchange : ℕ → ℕ → Option State → Option State → List State → List State
exchange i j (some a) (some b) xs = set_at j a (set_at i b xs)
exchange i j none b xs = xs
exchange i j (some a) none xs = xs

-- `[out[i], out[j]] = [out[j], out[i]]`
unfoldable pub swap : ℕ → ℕ → List State → List State
swap i j xs = exchange i j (get_elem? xs i) (get_elem? xs j) xs

-- The state of the pseudo-random sequence.
abbrev pub next_random : ℕ → ℕ
next_random s = (s * 16807) % 2147483647

-- The loop from `i` down to 1; `draw s i` is `Math.floor(r() * (i + 1))` at state `s`.
unfoldable pub shuffle : (draw : ℕ → ℕ → ℕ) → ℕ → ℕ → List State → List State
shuffle draw zero s out = out
shuffle draw (suc i) s out =
    shuffle draw i (next_random s) (swap (suc i) (draw (next_random s) (suc i)) out)

module _ (share : ℕ → ℕ → ℕ → ℕ) (draw : ℕ → ℕ → ℕ) where
  abbrev pub first_counts : ℕ → FleetMix → List ℕ
  first_counts n mix =
      let amounts = map (amount mix) keys in map (first_count share n (total amounts)) amounts

  abbrev pub final_counts : ℕ → FleetMix → List ℕ
  final_counts n mix =
      let counts = first_counts n mix in balance (distance (total counts) n) n counts (total counts)

  unfoldable pub assign_dot_states : ℕ → FleetMix → List State
  assign_dot_states n mix =
      let out = dots keys (final_counts n mix) in
      if n == 0
      then []
      else (if total (map (amount mix) keys) == 0
          then replicate n ok
          else shuffle draw (length out - 1) 7 out)
