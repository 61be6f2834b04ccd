-- ===== src/Boot/Tests.antt =====
-- The dots of a small fleet: frontend/src/boot/bootPlan.ts.
use rmm_rxf_sys_de.Base.{
  ℕ, zero, suc, ◌+◌, ◌-◌, ◌*◌, ◌/◌, ◌≤◌, ◌≡◌, refl, [], ◌∷◌, map, ltb, count, length, arith,
}
use rmm_rxf_sys_de.Boot.{FleetMix, State, amount, keys, total, balance, assign_dot_states}
use rmm_rxf_sys_de.Boot.Balance.{balance_terminates}
use rmm_rxf_sys_de.Boot.Laws.{dots_of, assign_dot_states_lem}

-- `Math.round((m / sum) * n)`
abbrev share : ℕ → ℕ → ℕ → ℕ
share m zero n = 0
share m (suc k) n = (2 * m * n + suc k) / (2 * suc k)

abbrev draw : ℕ → ℕ → ℕ
draw s i = (s - 1) * (i + 1) / 2147483646

abbrev mix : FleetMix
mix = record { ok = 40; warn = 1; danger = 1; off = 0 }

assign_dot_states_example :
    (length (assign_dot_states share draw 10 mix) ≡ 10)
    × (count (ltb 0) (map (amount mix) keys) ≤ 10
        → (k : State)
        → ltb 0 (dots_of k (assign_dot_states share draw 10 mix)) ≡ ltb 0 (amount mix k))
assign_dot_states_example = assign_dot_states_lem share draw 10 mix (omega arith) (omega arith)

balance_terminates_example : total (balance 3 9 (4 ∷ 1 ∷ 0 ∷ 7 ∷ []) 12) ≡ 9
balance_terminates_example =
    balance_terminates 3 9 (4 ∷ 1 ∷ 0 ∷ 7 ∷ []) 12 refl (omega arith) (omega arith)
