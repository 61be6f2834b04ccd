-- ===== src/Palette/Tier.antt =====
-- How a term occurs in a text: frontend/src/shell/palette/ranking.ts, lines 15 to 66.
pub mod Laws
use Prim.Native.Char.{Char}
use Prim.Native.String
use rmm_rxf_sys_de.Base.{
  ℕ, ◌+◌, ◌*◌, Bool, ◌||◌, String, List, [], ◌∷◌, ltb, max, str_eq, if◌then◌else◌,
}
use rmm_rxf_sys_de.Base.Search.{starts_with}
use rmm_rxf_sys_de.Base.Empty.{is_empty}

-- `Tier`: 0 no match, 1 anywhere, 2 at the start of a word, 3 at the start, 4 the whole text.
abbrev pub Tier : Type 0
Tier = ℕ

-- `is_word` stands for the test of a letter or a number. Texts are read by code point.
module _ (is_word : Char → Bool) where
  -- The loop over the occurrences behind the first character, where `before` is the character in
  -- front: 2 at the first one that starts a word, else 1 if there is one, else 0.
  unfoldable pub behind : Char → String → String → Tier
  behind before String.[] term = 0
  behind before (String.◌∷◌ c text) term =
      let rest = behind c text term in
      if starts_with (String.◌∷◌ c text) term
      then (if is_word before then max 1 rest else 2)
      else rest

  abbrev pub inside : String → String → Tier
  inside String.[] term = 0
  inside (String.◌∷◌ c text) term = behind c text term

  unfoldable pub match_tier : String → String → Tier
  match_tier text term =
      if is_empty term || is_empty text
      then 0
      else (if str_eq text term then 4 else (if starts_with text term then 3 else inside text term))

pub record Field : Type 0 where
  pub text : String
  pub weight : ℕ

module _ (is_word : Char → Bool) where
  -- `best = Math.max(best, tier * 10 + f.weight)` for each field that matches.
  unfoldable pub best_score : ℕ → List Field → String → ℕ
  best_score best [] term = best
  best_score best (f ∷ fields) term =
      let tier = match_tier is_word f.text term in
      let better = best_score (max best (tier * 10 + f.weight)) fields term in
      let same = best_score best fields term in if ltb 0 tier then better else same

  unfoldable pub term_score : List Field → String → ℕ
  term_score fields term = best_score 0 fields term

-- At which tier a field matches.
abbrev pub tier_of : (is_word : Char → Bool) → String → Field → Tier
tier_of is_word term f = match_tier is_word f.text term
