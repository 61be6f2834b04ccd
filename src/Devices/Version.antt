-- ===== src/Devices/Version.antt =====
-- frontend/src/version.ts: the order of version texts. `number` is `Number(x)` where that is
-- finite; the parts of a version have no sign and no point, so it is a whole number then. Texts
-- are compared by character code, which is the source's order below the supplementary planes.
use Prim.Native.Char.{code}
use Prim.Native.Nat.Ordering.{lt, eq, gt}
use rmm_rxf_sys_de.Base.{
  ℕ, Bool, true, false, ◌||◌, String, Option, some, List, [], ◌∷◌, Ordering, compare, ◌==◌, not,
  filter, str_eq, if◌then◌else◌,
}
use rmm_rxf_sys_de.Base.Compare.{then_by}

-- `[.+-]`
abbrev is_separator : ℕ → Bool
is_separator c = c == b'.' || (c == b'+' || c == b'-')

-- `a.split(/[.+-]/)`: the first part, and the parts after it.
unfoldable pub split : String → String × List String
split String.[] = ("", [])
split (String.◌∷◌ c s) =
    let (first, rest) = split s in
    if is_separator (code c) then ("", first ∷ rest) else (String.◌∷◌ c first, rest)

-- `x < y`
unfoldable pub text_below : String → String → Bool
text_below String.[] String.[] = false
text_below String.[] (String.◌∷◌ d t) = true
text_below (String.◌∷◌ c s) String.[] = false
text_below (String.◌∷◌ c s) (String.◌∷◌ d t) =
    let rest = text_below s t in
    elim (compare (code c) (code d)) [ lt ↦ true | eq ↦ rest | gt ↦ false ]

module _ (number : String → Option ℕ) where
  abbrev compare_texts : String → String → Ordering
  compare_texts x y = if str_eq x y then eq else (if text_below x y then lt else gt)

  abbrev compare_numbers : Option ℕ → Option ℕ → String → String → Ordering
  compare_numbers (some m) (some n) x y = compare m n
  compare_numbers _ _ x y = compare_texts x y

  -- One round of the loop.
  unfoldable pub compare_part : String → String → Ordering
  compare_part x y = compare_numbers (number x) (number y) x y

  -- A part that is missing is `'0'`.
  unfoldable pub compare_parts : List String → List String → Ordering
  compare_parts [] [] = eq
  compare_parts [] (y ∷ ys) = then_by (compare_part "0" y) (compare_parts [] ys)
  compare_parts (x ∷ xs) [] = then_by (compare_part x "0") (compare_parts xs [])
  compare_parts (x ∷ xs) (y ∷ ys) = then_by (compare_part x y) (compare_parts xs ys)

  abbrev all_parts : String × List String → List String
  all_parts (first, rest) = first ∷ rest

  unfoldable pub compare_versions : String → String → Ordering
  compare_versions a b = compare_parts (all_parts (split a)) (all_parts (split b))

  -- The `reduce`, from the best so far.
  unfoldable pub best_of : String → List String → String
  best_of best [] = best
  best_of best (v ∷ versions) =
      best_of (elim (compare_versions v best) [ gt ↦ v | _ ↦ best ]) versions

  unfoldable pub newest_version : List String → String
  newest_version versions = best_of "" (filter (λ v. not (str_eq v "")) versions)
