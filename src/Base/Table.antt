-- ===== src/Base/Table.antt =====
-- The rows of a table sorted by one column, described without a comparator: the rows with a value
-- come first, in the order of the values, and `ties` orders what the values leave open.
use Prim.Native.Nat.Ordering.{gt}
use mathlib.Core.Logic.{◌≢◌, ◌⊎◌}
use mathlib.Core.Option.{Option, none, some}
use mathlib.Core.List.{List, [], ◌∷◌}
use rmm_rxf_sys_de.Base.Lists.{All}
use rmm_rxf_sys_de.Base.Compare.{Comparator}
use rmm_rxf_sys_de.Base.Sort.{IsSorted}

module _ {A V : Type 0} (before equal : V → V → Type 0) (ties : Comparator A) where
  -- Row `a` with value `v` may stand before row `b` with value `w`.
  abbrev pub MayPrecede : A → Option V → A → Option V → Type 0
  MayPrecede a none b none = ties a b ≢ gt
  MayPrecede a none b (some w) = ⊥
  MayPrecede a (some v) b none = Unit
  MayPrecede a (some v) b (some w) = before v w ⊎ equal v w × (ties a b ≢ gt)

  module _ (value : A → Option V) where
    abbrev pub Precedes : A → A → Type 0
    Precedes a b = MayPrecede a (value a) b (value b)

    -- Every row may stand before all that come after it.
    abbrev pub InOrder : List A → Type 0
    InOrder [] = Unit
    InOrder (a ∷ rows) = All (Precedes a) rows × InOrder rows

    module _ (cmp : Comparator A) (h : (a b : A) → cmp a b ≢ gt → Precedes a b) where
      All-of_cmp : (a : A) (rows : List A) → All (λ b. cmp a b ≢ gt) rows → All (Precedes a) rows
      All-of_cmp a [] k = tt
      All-of_cmp a (b ∷ rows) (p, k) = (h a b p, All-of_cmp a rows k)

      pub InOrder-of_IsSorted : (rows : List A) → IsSorted cmp rows → InOrder rows
      InOrder-of_IsSorted [] k = tt
      InOrder-of_IsSorted (a ∷ rows) (p, k) = (All-of_cmp a rows p, InOrder-of_IsSorted rows k)
