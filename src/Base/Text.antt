-- ===== src/Base/Text.antt =====
-- Texts: decimal numerals, and the collation that the browser provides.
use Prim.Native.Nat.{ℕ, zero, suc, ◌+◌, ◌*◌, ◌/◌, ◌%◌}
use Prim.Native.String.{String}
use Prim.Native.String
use mathlib.Core.Path.{◌≡◌}
use mathlib.Core.Bool.{true, false}
use mathlib.Core.List.{List, [], ◌∷◌}
use text.Mathlib.Text.{◌==◌ as str_eq}
use text.Mathlib.TextEquality.{eq_iff}
use rmm_rxf_sys_de.Base.Tests.{◌==◌, if◌then◌else◌}
use rmm_rxf_sys_de.Base.Compare.{Comparator, IsOrder}

unfoldable pub digit : ℕ → String
digit n =
    if n == 0
    then "0"
    else (if n == 1
        then "1"
        else (if n == 2
            then "2"
            else (if n == 3
                then "3"
                else (if n == 4
                    then "4"
                    else (if n == 5
                        then "5"
                        else (if n == 6
                            then "6"
                            else (if n == 7 then "7" else (if n == 8 then "8" else "9"))))))))

-- The fuel is the number of digits left; a number has no more digits than its value plus one.
unfoldable pub decimal_from : ℕ → ℕ → String
decimal_from zero n = ""
decimal_from (suc fuel) n =
    let longer = String.◌++◌ (decimal_from fuel (n / 10)) (digit (n % 10)) in
    if n / 10 == 0 then digit (n % 10) else longer

-- `String(n)`
unfoldable pub decimal : ℕ → String
unfolding decimal_from digit
decimal n = decimal_from (suc n) n

-- `Intl.Collator`: its `compare` is a consistent comparator (ECMA-402).
pub record Collator : Type 0 where
  pub compare : Comparator String
  pub order : IsOrder compare

-- A text that is `a` is none of the other texts.
pub other_text : (t a b : String) → str_eq t a ≡ true → str_eq a b ≡ false → str_eq t b ≡ false
other_text t a b h k = rw ((eq_iff t a).0 h) k

-- A template text, from its parts.
abbrev pub parts : List String → String
parts [] = ""
parts (t ∷ ts) = String.◌++◌ t (parts ts)

-- `xs.join(sep)`
abbrev pub join : String → List String → String
join sep [] = ""
join sep (t ∷ []) = t
join sep (t ∷ u ∷ ts) = parts (t ∷ sep ∷ join sep (u ∷ ts) ∷ [])

-- `${n} ${n === 1 ? one : many}`
abbrev pub plural : ℕ → String → String → String
plural n one many = parts (decimal n ∷ " " ∷ (if n == 1 then one else many) ∷ [])

-- `Math.round(s / n)` of whole numbers
abbrev pub round_div : ℕ → ℕ → ℕ
round_div s n = (2 * s + n) / (2 * n)
