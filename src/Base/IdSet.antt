-- ===== src/Base/IdSet.antt =====
-- A `Set` of ids, as the list of its elements in the order of insertion. Only the membership is read.
use Prim.Native.Nat.{ℕ}
use mathlib.Core.Path.{◌≡◌, refl}
use mathlib.Core.Logic.{inl, inr}
use mathlib.Core.Bool.{Bool, true, false, not, ◌&&◌, ◌||◌}
use mathlib.Core.List.{List, [], ◌∷◌, ◌++◌}
use native.Mathlib.Omega.{arith}
use rmm_rxf_sys_de.Base.Tests.{◌==◌, Bool-cases, if◌then◌else◌}
use rmm_rxf_sys_de.Base.Lists.{any, filter}

abbrev pub has : ℕ → List ℕ → Bool
has id ids = any (λ x. x == id) ids

-- `next.add(id)`
unfoldable pub add : ℕ → List ℕ → List ℕ
add id ids = if has id ids then ids else ids ++ id ∷ []

-- `next.delete(id)`
unfoldable pub remove : ℕ → List ℕ → List ℕ
remove id ids = filter (λ x. not (x == id)) ids

abbrev pub put : Bool → ℕ → List ℕ → List ℕ
put true id ids = add id ids
put false id ids = remove id ids

abbrev pub put_all : Bool → List ℕ → List ℕ → List ℕ
put_all on [] ids = ids
put_all on (i ∷ is) ids = put_all on is (put on i ids)

pub has-append : (j : ℕ) (xs : List ℕ) (id : ℕ) → has j (xs ++ id ∷ []) ≡ (has j xs || id == j)
has-append j [] id = ground arith
has-append j (x ∷ xs) id = ground (arith, has-append j xs id)

pub has-remove : (j id : ℕ) (xs : List ℕ) → has j (remove id xs) ≡ (has j xs && not (id == j))
unfolding remove
has-remove j id [] = refl
has-remove j id (x ∷ xs) = ground (arith, has-remove j id xs)

pub has-put :
    (on : Bool) (j id : ℕ) (xs : List ℕ) → has j (put on id xs) ≡ (if id == j then on else has j xs)
unfolding add
has-put true j id xs = elim (Bool-cases (has id xs)) [
  | inl old ↦ elim (Bool-cases (id == j)) [
    | inl same ↦ let e : id ≡ j = ground arith in rw (old, same) (rw (e) at old)
    | inr other ↦ rw (old, other) refl
  ]
  | inr new ↦ rw (new, has-append j xs id) (ground arith)
]
has-put false j id xs = rw (has-remove j id xs) (ground arith)

pub has-put_all :
    (on : Bool) (j : ℕ) (is xs : List ℕ)
    → has j (put_all on is xs) ≡ (if has j is then on else has j xs)
has-put_all on j [] xs = refl
has-put_all on j (i ∷ is) xs =
    rw (has-put_all on j is (put on i xs), has-put on j i xs) (ground arith)
