-- ===== src/Base/Empty.antt =====
-- Texts that are not empty.
use Prim.Native.String.{String}
use Prim.Native.String
use mathlib.Core.Path.{◌≡◌, refl}
use mathlib.Core.Bool.{Bool, true, false, ◌&&◌}
use text.Mathlib.Text.{◌==◌ as str_eq}
use text.Mathlib.TextLemmas.{cons-append, nil-append, cons-ne-nil}
use text.Mathlib.TextEquality.{eq_iff}
use mathlib.Core.Logic.{inl, inr}
use rmm_rxf_sys_de.Base.Tests.{Bool-cases}

abbrev pub is_empty : String → Bool
is_empty String.[] = true
is_empty (String.◌∷◌ c s) = false

pub is_empty-append : (s t : String) → is_empty (String.◌++◌ s t) ≡ (is_empty s && is_empty t)
is_empty-append String.[] t = rw (nil-append t)
is_empty-append (String.◌∷◌ c s) t = rw (cons-append c s t)

pub is_empty-eq : (t : String) → str_eq t "" ≡ is_empty t
is_empty-eq String.[] = refl
is_empty-eq (String.◌∷◌ c s) = elim (Bool-cases (str_eq (String.◌∷◌ c s) "")) [
  | inl same ↦ absurd (cons-ne-nil c s ((eq_iff (String.◌∷◌ c s) "").0 same))
  | inr other ↦ other
]
