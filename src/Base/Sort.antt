-- ===== src/Base/Sort.antt =====
-- `Array.prototype.sort`, which ECMAScript fixes for a consistent comparator: the result is the
-- stable sorted rearrangement. The model computes it by insertion.
pub mod Parts
use Prim.Native.Nat.Ordering.{eq, gt}
use mathlib.Core.Path.{◌≡◌, refl, ap, ◌∙◌}
use mathlib.Core.Logic.{◌≢◌, inl, inr}
use mathlib.Core.Bool.{Bool, true, false, not}
use mathlib.Core.List.{List, [], ◌∷◌, ◌++◌, map, Perm}
use mathlib.Core.List.Perm
use native.Mathlib.Omega.{arith}
use rmm_rxf_sys_de.Base.Tests.{Bool-cases, if◌then◌else◌}
use rmm_rxf_sys_de.Base.Lists.{All, filter, any, length}
use rmm_rxf_sys_de.Base.Compare.{Comparator, IsOrder, on}

abbrev is_gt : Prim.Native.Nat.Ordering → Bool
is_gt gt = true
is_gt _ = false

abbrev pub is_eq : Prim.Native.Nat.Ordering → Bool
is_eq eq = true
is_eq _ = false

module _ {ℓ} {A : Type ℓ} (cmp : Comparator A) where
  unfoldable pub insert : A → List A → List A
  insert x [] = x ∷ []
  insert x (y ∷ ys) = let rest = insert x ys in if is_gt (cmp x y) then y ∷ rest else x ∷ y ∷ ys

  unfoldable pub sort : List A → List A
  unfolding insert
  sort [] = []
  sort (x ∷ xs) = insert x (sort xs)

  -- No element stands behind one that it must precede.
  abbrev pub IsSorted : List A → Type 0
  IsSorted [] = Unit
  IsSorted (x ∷ xs) = All (λ y. cmp x y ≢ gt) xs × IsSorted xs

module _ {ℓ} {A : Type ℓ} (cmp : Comparator A) where
  insert-perm : (x : A) (xs : List A) → Perm (insert cmp x xs) (x ∷ xs)
  unfolding insert
  insert-perm x [] = Perm.rfl
  insert-perm x (y ∷ ys) = elim (Bool-cases (is_gt (cmp x y))) [
    | inl later ↦
        rw (later, insert) (Perm.trans (Perm.cons y (insert-perm x ys)) (Perm.swap x y ys))
    | inr first ↦ rw (first, insert) Perm.rfl
  ]

  insert-All {κ} : (P : A → Type κ) (x : A) (xs : List A) → P x → All P xs → All P (insert cmp x xs)
  unfolding insert
  insert-All P x [] p h = (p, tt)
  insert-All P x (y ∷ ys) p (q, h) = elim (Bool-cases (is_gt (cmp x y))) [
    | inl later ↦ rw (later, insert) (q, insert-All P x ys p h)
    | inr first ↦ rw (first, insert) (p, (q, h))
  ]

  pub sort-All {κ} : (P : A → Type κ) (xs : List A) → All P xs → All P (sort cmp xs)
  unfolding sort
  sort-All P [] h = tt
  sort-All P (x ∷ xs) (k, h) = insert-All P x (sort cmp xs) k (sort-All P xs h)

  pub sort-perm : (xs : List A) → Perm (sort cmp xs) xs
  unfolding sort
  sort-perm [] = Perm.rfl
  sort-perm (x ∷ xs) = Perm.trans (insert-perm x (sort cmp xs)) (Perm.cons x (sort-perm xs))

module _ {ℓ} {A : Type ℓ} {cmp : Comparator A} (o : IsOrder cmp) where
  below-All :
      (x y : A) (ys : List A)
      → cmp x y ≢ gt
      → All (λ z. cmp y z ≢ gt) ys
      → All (λ z. cmp x z ≢ gt) ys
  below-All x y [] p h = tt
  below-All x y (z ∷ zs) p (q, h) = (o.trans x y z p q, below-All x y zs p h)

  insert-IsSorted : (x : A) (xs : List A) → IsSorted cmp xs → IsSorted cmp (insert cmp x xs)
  unfolding insert
  insert-IsSorted x [] h = (tt, tt)
  insert-IsSorted x (y ∷ ys) (below, h) = elim (Bool-cases (is_gt (cmp x y))) [
    | inl later ↦
        let le : cmp y x ≢ gt = ground (arith, o.anti x y) in
        rw (later, insert)
          (insert-All cmp (λ z. cmp y z ≢ gt) x ys le below, insert-IsSorted x ys h)
    | inr first ↦
        let le : cmp x y ≢ gt = ground arith in
        rw (first, insert) ((le, below-All x y ys le below), (below, h))
  ]

  pub sort-IsSorted : (xs : List A) → IsSorted cmp (sort cmp xs)
  unfolding sort
  sort-IsSorted [] = tt
  sort-IsSorted (x ∷ xs) = insert-IsSorted x (sort cmp xs) (sort-IsSorted xs)

  -- Elements that tie with `a` keep their order.
  insert-filter :
      (a x : A) (xs : List A)
      → filter (λ z. is_eq (cmp a z)) (insert cmp x xs) ≡ filter (λ z. is_eq (cmp a z)) (x ∷ xs)
  unfolding insert
  insert-filter a x [] = refl
  insert-filter a x (y ∷ ys) =
      ground (arith, insert-filter a x ys, o.anti a x, o.anti a y, o.anti x y, o.trans x a y)

  pub sort_stable :
      (a : A) (xs : List A)
      → filter (λ z. is_eq (cmp a z)) (sort cmp xs) ≡ filter (λ z. is_eq (cmp a z)) xs
  unfolding sort
  sort_stable a [] = refl
  sort_stable a (x ∷ xs) = insert-filter a x (sort cmp xs) ∙ ground (arith, sort_stable a xs)

module _ {ℓ κ} {A : Type ℓ} {B : Type κ} (f : A → B) (cmp : Comparator B) where
  insert-map : (x : A) (xs : List A) → insert cmp (f x) (map f xs) ≡ map f (insert (on f cmp) x xs)
  unfolding insert
  insert-map x [] = refl
  insert-map x (y ∷ ys) = ground (arith, insert-map x ys)

  pub sort-map : (xs : List A) → sort cmp (map f xs) ≡ map f (sort (on f cmp) xs)
  unfolding sort
  sort-map [] = refl
  sort-map (x ∷ xs) = ap (insert cmp (f x)) (sort-map xs) ∙ insert-map x (sort (on f cmp) xs)

module _ {ℓ} {A : Type ℓ} (cmp : Comparator A) where
  length-insert : (x : A) (xs : List A) → length (insert cmp x xs) ≡ length (x ∷ xs)
  unfolding insert
  length-insert x [] = refl
  length-insert x (y ∷ ys) = ground (arith, length-insert x ys)

  pub length-sort : (xs : List A) → length (sort cmp xs) ≡ length xs
  unfolding sort
  length-sort [] = refl
  length-sort (x ∷ xs) = length-insert x (sort cmp xs) ∙ rw (length-sort xs)

module _ {ℓ} {A : Type ℓ} (cmp : Comparator A) (p : A → Bool) where
  any-insert : (x : A) (xs : List A) → any p (insert cmp x xs) ≡ any p (x ∷ xs)
  unfolding insert
  any-insert x [] = refl
  any-insert x (y ∷ ys) = ground (arith, any-insert x ys)

  pub any-sort : (xs : List A) → any p (sort cmp xs) ≡ any p xs
  unfolding sort
  any-sort [] = refl
  any-sort (x ∷ xs) = any-insert x (sort cmp xs) ∙ rw (any-sort xs)

-- Where whatever fails `p` must stand behind whatever meets it, a sorted list is split by `p`.
module _ {ℓ} {A : Type ℓ} {cmp : Comparator A} (p : A → Bool)
    (behind : (a b : A) → p a ≡ false → p b ≡ true → cmp a b ≡ gt) where
  All-fail : (a : A) (xs : List A) → p a ≡ false → All (λ y. cmp a y ≢ gt) xs → filter p xs ≡ []
  All-fail a [] h k = refl
  All-fail a (x ∷ xs) h (q, k) = ground (arith, behind a x, All-fail a xs h k)

  pub IsSorted-split :
      (xs : List A) → IsSorted cmp xs → xs ≡ filter p xs ++ filter (λ x. not (p x)) xs
  IsSorted-split [] h = refl
  IsSorted-split (x ∷ xs) (below, h) = elim (Bool-cases (p x)) [
    | inl meets ↦ rw (meets, filter) (ap (◌∷◌ x) (IsSorted-split xs h))
    | inr fails ↦
        let none_left = All-fail x xs fails below in
        rw (fails, none_left) (ap (◌∷◌ x) (rw none_left at (IsSorted-split xs h)))
  ]
