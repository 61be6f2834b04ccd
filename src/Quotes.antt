-- ===== src/Quotes.antt =====
-- How a shell reads the single quotes of a command: what stands between them is taken as it is.
use Prim.Native.Char.{Char, code}
use Prim.Native.String
use text.Mathlib.TextLemmas.{cons-append, nil-append}
use rmm_rxf_sys_de.Base.{
  ℕ, suc, ◌+◌, ◌≡◌, refl, ◌∙◌, sym, ◌==◌, String, List, [], ◌∷◌, Bool-cases, inl, inr,
  if◌then◌else◌, arith,
}

-- How many single quotes a text has.
unfoldable pub quotes : String → ℕ
quotes String.[] = 0
quotes (String.◌∷◌ c s) = let rest = quotes s in if code c == 39 then suc rest else rest

pub quotes-append : (s t : String) → quotes (String.◌++◌ s t) ≡ quotes s + quotes t
unfolding quotes
quotes-append String.[] t = rw (nil-append t) (omega arith)
quotes-append (String.◌∷◌ c s) t = rw (cons-append c s t) (ground (arith, quotes-append s t))

abbrev open_with : Char → List String → List String
open_with c [] = String.◌∷◌ c "" ∷ []
open_with c (w ∷ ws) = String.◌∷◌ c w ∷ ws

-- What stands between the single quotes of a text, outside and inside by turns.
unfoldable pub cut : String → List String
cut String.[] = "" ∷ []
cut (String.◌∷◌ c s) = let rest = cut s in if code c == 39 then "" ∷ rest else open_with c rest

-- The last piece of one text and the first of the next are one.
abbrev joined : List String → List String → List String
joined [] vs = vs
joined (w ∷ []) [] = w ∷ []
joined (w ∷ []) (v ∷ vs) = String.◌++◌ w v ∷ vs
joined (w ∷ u ∷ ws) vs = w ∷ joined (u ∷ ws) vs

joined-open_with :
    (c : Char) (w : String) (ws vs : List String)
    → joined (open_with c (w ∷ ws)) vs ≡ open_with c (joined (w ∷ ws) vs)
joined-open_with c w [] [] = refl
joined-open_with c w [] (v ∷ vs) = rw (cons-append c w v) refl
joined-open_with c w (u ∷ ws) vs = refl

cut-some : (s : String) → (w : String) × ((ws : List String) × (cut s ≡ w ∷ ws))
unfolding cut
cut-some String.[] = ("", ([], refl))
cut-some (String.◌∷◌ c s) =
    let (w, (ws, e)) = cut-some s in
    elim (Bool-cases (code c == 39)) [
      | inl quote ↦ rw (quote) ("", (cut s, refl))
      | inr other ↦ rw (other, e) (String.◌∷◌ c w, (ws, refl))
    ]

pub cut-append : (s t : String) → cut (String.◌++◌ s t) ≡ joined (cut s) (cut t)
unfolding cut
cut-append String.[] t = let (v, (vs, e)) = cut-some t in rw (nil-append t, e, nil-append v) refl
cut-append (String.◌∷◌ c s) t =
    let (w, (ws, e)) = cut-some s in
    let rest : cut (String.◌++◌ s t) ≡ joined (w ∷ ws) (cut t) = cut-append s t ∙ rw (e) refl in
    elim (Bool-cases (code c == 39)) [
      | inl quote ↦ rw (cons-append c s t, quote, rest, e) refl
      | inr other ↦ rw (cons-append c s t, other, rest, e) (sym (joined-open_with c w ws (cut t)))
    ]

pub cut-whole : (s : String) → quotes s ≡ 0 → cut s ≡ s ∷ []
unfolding cut quotes
cut-whole String.[] h = refl
cut-whole (String.◌∷◌ c s) h = elim (Bool-cases (code c == 39)) [
  | inl quote ↦ absurd (ground arith)
  | inr other ↦ rw (other, cut-whole s (ground arith)) refl
]
