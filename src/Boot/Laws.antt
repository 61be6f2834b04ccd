-- ===== src/Boot/Laws.antt =====
-- The dots around the logo: frontend/src/boot/bootPlan.ts, lines 84 to 113.
use rmm_rxf_sys_de.Base.{
  ℕ, suc, ◌+◌, ◌-◌, ◌≤◌, ◌<◌, ◌≡◌, refl, ◌∙◌, sym, ap, Bool, true, false, List, [], ◌∷◌, map, ltb,
  count, length, arith, if◌then◌else◌,
}
use rmm_rxf_sys_de.Boot.{
  FleetMix, State, danger, warn, off, ok, amount, keys, total, first_count, first_counts,
  final_counts, distance, dots, shuffle, assign_dot_states,
}
use rmm_rxf_sys_de.Boot.Balance.{
  balance_terminates, length-balance, count-occurs, occurs, occurs-balance,
}
use rmm_rxf_sys_de.Boot.Shuffle.{count-shuffle, count-dots}

abbrev pub is_state : State → State → Bool
is_state danger danger = true
is_state warn warn = true
is_state off off = true
is_state ok ok = true
is_state _ _ = false

-- How many dots are of a state.
abbrev pub dots_of : State → List State → ℕ
dots_of k out = count (is_state k) out

count-all : (xs : List State) → count (λ x. true) xs ≡ length xs
count-all [] = refl
count-all (x ∷ xs) = ap suc (count-all xs)

abbrev Four : List ℕ → Type 0
Four ns = (a b c d : ℕ) × (ns ≡ a ∷ b ∷ c ∷ d ∷ [])

Four-of_length : (ns : List ℕ) → length ns ≡ 4 → Four ns
Four-of_length [] h = ground arith
Four-of_length (a ∷ []) h = ground arith
Four-of_length (a ∷ b ∷ []) h = ground arith
Four-of_length (a ∷ b ∷ c ∷ []) h = ground arith
Four-of_length (a ∷ b ∷ c ∷ d ∷ []) h = (a, b, c, d, refl)
Four-of_length (a ∷ b ∷ c ∷ d ∷ e ∷ ns) h = ground arith

length-dots : (ns : List ℕ) → length ns ≡ 4 → length (dots keys ns) ≡ total ns
length-dots ns h =
    let (a, b, c, d, e) = Four-of_length ns h in
    rw (e) (
      sym (count-all (dots keys (a ∷ b ∷ c ∷ d ∷ [])))
      ∙ count-dots (λ x. true) a b c d
      ∙ omega arith)

dots_of-dots :
    (mix : FleetMix) (ns : List ℕ)
    → length ns ≡ 4
    → occurs ns ≡ occurs (map (amount mix) keys)
    → (k : State) → ltb 0 (dots_of k (dots keys ns)) ≡ ltb 0 (amount mix k)
dots_of-dots mix ns h o k =
    let (a, b, c, d, e) = Four-of_length ns h in
    rw (e) (one a b c d k (rw (e) at o) (count-dots (is_state k) a b c d))
  where
    one :
        (a b c d : ℕ) (k : State)
        → occurs (a ∷ b ∷ c ∷ d ∷ []) ≡ occurs (map (amount mix) keys)
        → dots_of k (dots keys (a ∷ b ∷ c ∷ d ∷ []))
          ≡ (if is_state k danger then a else 0)
            + (if is_state k warn then b else 0)
            + (if is_state k off then c else 0)
            + (if is_state k ok then d else 0)
        → ltb 0 (dots_of k (dots keys (a ∷ b ∷ c ∷ d ∷ []))) ≡ ltb 0 (amount mix k)
    one a b c d danger p q = ground arith
    one a b c d warn p q = ground arith
    one a b c d off p q = ground arith
    one a b c d ok p q = ground arith

occurs-first_counts :
    (share : ℕ → ℕ → ℕ → ℕ) (n sum : ℕ) (ms : List ℕ)
    → occurs (map (first_count share n sum) ms) ≡ occurs ms
occurs-first_counts share n sum [] = refl
occurs-first_counts share n sum (m ∷ ms) = ground (arith, occurs-first_counts share n sum ms)

total-occurs : (ms ns : List ℕ) → occurs ms ≡ occurs ns → 0 < total ms → 0 < total ns
total-occurs [] ns e h = ground arith
total-occurs (m ∷ ms) [] e h = ground arith
total-occurs (m ∷ ms) (n ∷ ns) e h = ground (arith, total-occurs ms ns)

module _ (share : ℕ → ℕ → ℕ → ℕ) (draw : ℕ → ℕ → ℕ) where
  assigned :
      (n : ℕ) (mix : FleetMix)
      → 0 < n
      → 0 < total (map (amount mix) keys)
      → assign_dot_states share draw n mix
        ≡ shuffle draw
            (length (dots keys (final_counts share draw n mix)) - 1)
            7
            (dots keys (final_counts share draw n mix))
  unfolding assign_dot_states
  assigned n mix h k = ground arith

  -- For a fleet that is not empty and at least one dot, whatever the rounding gives and however
  -- the dots are shuffled: there are exactly `n` dots, and if there is room for a dot of each state
  -- that occurs, the states with a dot are exactly those that occur.
  pub assign_dot_states_lem :
      (n : ℕ) (mix : FleetMix)
      → 0 < n
      → 0 < total (map (amount mix) keys)
      → (length (assign_dot_states share draw n mix) ≡ n)
        × (count (ltb 0) (map (amount mix) keys) ≤ n
            → (k : State)
            → ltb 0 (dots_of k (assign_dot_states share draw n mix)) ≡ ltb 0 (amount mix k))
  unfolding assign_dot_states
  assign_dot_states_lem n mix h k =
      let counts = first_counts share draw n mix in
      let ns = final_counts share draw n mix in
      let out = dots keys ns in
      let same =
        occurs-first_counts share n (total (map (amount mix) keys)) (map (amount mix) keys) in
      let four = length-balance (distance (total counts) n) n counts (total counts) in
      let sum =
        balance_terminates (distance (total counts) n) n counts (total counts) refl (ground arith)
          (omega arith) in
      rw (assigned n mix h k) (
        sym (count-all (shuffle draw (length out - 1) 7 out))
            ∙ count-shuffle (λ x. true) draw (length out - 1) 7 out
            ∙ count-all out
            ∙ length-dots ns four
            ∙ sum,
        λ room state.
            ap (ltb 0) (count-shuffle (is_state state) draw (length out - 1) 7 out)
            ∙ dots_of-dots mix ns four
                (occurs-balance (distance (total counts) n) n counts (total counts) refl
                    (total-occurs (map (amount mix) keys) counts (sym same) k)
                    (ground (arith, room, count-occurs counts (map (amount mix) keys) same))
                  ∙ same)
                state,
      )
