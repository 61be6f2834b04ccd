-- ===== src/Palette/Tier/Laws.antt =====
-- What a match means: frontend/src/shell/palette/ranking.ts, lines 35 to 66.
use Prim.Native.Char.{Char}
use Prim.Native.String
use text.Mathlib.TextLemmas.{cons-append, nil-append, cons-ne-nil, append-nil}
use text.Mathlib.TextEquality.{Char-path}
use rmm_rxf_sys_de.Base.{
  ℕ, ◌+◌, ◌*◌, ◌≤◌, ◌<◌, ◌≡◌, ◌↔◌, refl, sym, ap, ◌∙◌, ◌⊎◌, inl, inr, Bool, Bool-cases, true, false,
  ◌||◌, String, List, [], ◌∷◌, leb, max, any, eq_iff, arith,
}
use rmm_rxf_sys_de.Base.Search.{starts_with}
use rmm_rxf_sys_de.Base.Empty.{is_empty}
use rmm_rxf_sys_de.Palette.Tier.{Field, behind, inside, match_tier, best_score, term_score, tier_of}

-- `text` begins with `term`.
abbrev pub Begins : String → String → Type 0
Begins text term = (b : String) × (text ≡ String.◌++◌ term b)

-- `term` stands somewhere in `text`.
abbrev pub Occurs : String → String → Type 0
Occurs text term = (a b : String) × (text ≡ String.◌++◌ a (String.◌++◌ term b))

starts_with-Begins : (text term : String) → starts_with text term ≡ true → Begins text term
unfolding starts_with
starts_with-Begins text String.[] h = (text, sym (nil-append text))
starts_with-Begins String.[] (String.◌∷◌ d term) h = ground arith
starts_with-Begins (String.◌∷◌ c text) (String.◌∷◌ d term) h =
    let (b, e) = starts_with-Begins text term (ground (arith, h)) in
    let same = Char-path c d (ground (arith, h)) in (b, rw (same, e) (sym (cons-append d term b)))

Begins-starts_with : (term b : String) → starts_with (String.◌++◌ term b) term ≡ true
unfolding starts_with
Begins-starts_with String.[] b = refl
Begins-starts_with (String.◌∷◌ d term) b =
    rw (cons-append d term b) (ground (arith, Begins-starts_with term b))

module _ (is_word : Char → Bool) where
  behind-Occurs :
      (c : Char) (text term : String) → 0 < behind is_word c text term → Occurs text term
  unfolding behind
  behind-Occurs c String.[] term h = ground arith
  behind-Occurs c (String.◌∷◌ d text) term h =
      elim (Bool-cases (starts_with (String.◌∷◌ d text) term)) [
        | inl here ↦
            let (b, e) = starts_with-Begins (String.◌∷◌ d text) term here in
            ("", b, e ∙ sym (nil-append (String.◌++◌ term b)))
        | inr later ↦
            let (a, b, e) = behind-Occurs d text term (rw (later) at h) in
            (String.◌∷◌ d a, b, ap (String.◌∷◌ d) e ∙ sym (cons-append d a (String.◌++◌ term b)))
      ]

  Occurs-behind :
      (c : Char) (a b term : String)
      → is_empty term ≡ false
      → 0 < behind is_word c (String.◌++◌ a (String.◌++◌ term b)) term
  unfolding behind
  Occurs-behind c String.[] b String.[] h = ground arith
  Occurs-behind c String.[] b (String.◌∷◌ d term) h =
      let here = Begins-starts_with (String.◌∷◌ d term) b in
      rw (nil-append (String.◌++◌ (String.◌∷◌ d term) b), cons-append d term b)
        (ground (arith, rw (cons-append d term b) at here))
  Occurs-behind c (String.◌∷◌ e a) b term h =
      rw (cons-append e a (String.◌++◌ term b)) (ground (arith, Occurs-behind e a b term h))

  Occurs-inside :
      (text term : String)
      → is_empty term ≡ false
      → Occurs text term
      → (starts_with text term ≡ true) ⊎ (0 < inside is_word text term)
  Occurs-inside text term h (String.[], b, e) =
      inl (rw (e, nil-append (String.◌++◌ term b)) (Begins-starts_with term b))
  Occurs-inside text term h (String.◌∷◌ c a, b, e) =
      inr (rw (e, cons-append c a (String.◌++◌ term b)) (Occurs-behind c a b term h))

  inside-Occurs : (text term : String) → 0 < inside is_word text term → Occurs text term
  inside-Occurs String.[] term h = ground arith
  inside-Occurs (String.◌∷◌ c text) term h =
      let (a, b, e) = behind-Occurs c text term h in
      (String.◌∷◌ c a, b, ap (String.◌∷◌ c) e ∙ sym (cons-append c a (String.◌++◌ term b)))

  matched :
      (text term : String)
      → is_empty term ≡ false
      → 0 < match_tier is_word text term
      → (text ≡ term) ⊎ ((starts_with text term ≡ true) ⊎ (0 < inside is_word text term))
  unfolding match_tier
  matched text term h k = ground (arith, (eq_iff text term).0)

  unmatched :
      (text term : String)
      → is_empty term ≡ false
      → is_empty text ≡ false
      → (starts_with text term ≡ true) ⊎ (0 < inside is_word text term)
      → 0 < match_tier is_word text term
  unfolding match_tier
  unmatched text term h k e = ground arith

  Occurs-not_empty :
      (text term : String) → is_empty term ≡ false → Occurs text term → is_empty text ≡ false
  Occurs-not_empty String.[] String.[] h o = h
  Occurs-not_empty String.[] (String.◌∷◌ d term) h (String.[], b, e) = absurd (
      cons-ne-nil d (String.◌++◌ term b)
        (sym (e ∙ nil-append (String.◌++◌ (String.◌∷◌ d term) b) ∙ cons-append d term b)))
  Occurs-not_empty String.[] (String.◌∷◌ d term) h (String.◌∷◌ c a, b, e) = absurd (
      cons-ne-nil c (String.◌++◌ a (String.◌++◌ (String.◌∷◌ d term) b))
        (sym (e ∙ cons-append c a (String.◌++◌ (String.◌∷◌ d term) b))))
  Occurs-not_empty (String.◌∷◌ c text) term h o = refl

  -- A term that is not empty scores in a text exactly if it stands in it, somewhere.
  pub match_tier-Occurs :
      (text term : String)
      → is_empty term ≡ false
      → (0 < match_tier is_word text term) ↔ Occurs text term
  match_tier-Occurs text term h = (forth, back)
    where
      forth : 0 < match_tier is_word text term → Occurs text term
      forth k = elim (matched text term h k) [
        | inl same ↦ ("", "", same ∙ sym (nil-append (String.◌++◌ term "") ∙ append-nil term))
        | inr (inl begins) ↦
            let (b, e) = starts_with-Begins text term begins in
            ("", b, e ∙ sym (nil-append (String.◌++◌ term b)))
        | inr (inr within) ↦ inside-Occurs text term within
      ]

      back : Occurs text term → 0 < match_tier is_word text term
      back o = unmatched text term h (Occurs-not_empty text term h o) (Occurs-inside text term h o)

  tier-bound : (c : Char) (text term : String) → behind is_word c text term ≤ 2
  unfolding behind
  tier-bound c String.[] term = omega arith
  tier-bound c (String.◌∷◌ d text) term = ground (arith, tier-bound d text term)

-- Each field weighs at most nine.
abbrev pub IsLight : List Field → Type 0
IsLight [] = Unit
IsLight (f ∷ fields) = (f.weight ≤ 9) × IsLight fields

module _ (is_word : Char → Bool) where
  -- Whether some field matches at this tier or a better one.
  abbrev pub reaches : ℕ → List Field → String → Bool
  reaches tier fields term = any (λ f. leb tier (tier_of is_word term f)) fields

  score-below :
      (tier best : ℕ) (fields : List Field) (term : String)
      → 0 < tier
      → IsLight fields
      → leb (tier * 10) (best_score is_word best fields term)
        ≡ (leb (tier * 10) best || reaches tier fields term)
  unfolding best_score
  score-below tier best [] term h l = ground arith
  score-below tier best (f ∷ fields) term h (w, l) = ground (
    arith,
    score-below tier best fields term h l,
    score-below tier (max best (tier_of is_word term f * 10 + f.weight)) fields term h l,
  )

  -- The tier always wins over the weight of the field: where every weight is at most nine, a score
  -- of ten times a tier or more means that some field matches at that tier or a better one, and a
  -- term that no field matches scores nothing.
  pub term_score-reaches :
      (tier : ℕ) (fields : List Field) (term : String)
      → 0 < tier
      → IsLight fields
      → leb (tier * 10) (term_score is_word fields term) ≡ reaches tier fields term
  unfolding term_score
  term_score-reaches tier fields term h l = score-below tier 0 fields term h l ∙ ground arith
