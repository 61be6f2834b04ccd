-- ===== src/Base/Sort/Parts.antt =====
-- A sort by a test puts those that pass first and keeps the order of both parts.
use Prim.Native.Nat.{ℕ, ◌≤◌, ◌<◌, compare}
use mathlib.Core.Path.{◌≡◌, refl, ap, ◌∙◌}
use mathlib.Core.Bool.{Bool, not}
use mathlib.Core.List.{List, [], ◌∷◌, ◌++◌, append-nil}
use native.Mathlib.Omega.{arith}
use rmm_rxf_sys_de.Base.Tests.{if◌then◌else◌, ◌==◌}
use rmm_rxf_sys_de.Base.Lists.{filter}
use rmm_rxf_sys_de.Base.Compare.{Comparator}
use rmm_rxf_sys_de.Base.Sort.{insert, sort}

module _ {A : Type 0} (p : A → Bool) where
  -- `(p(a) ? 0 : 1) - (p(b) ? 0 : 1)`
  abbrev pub by_test : Comparator A
  by_test a b = compare (if p a then 0 else 1) (if p b then 0 else 1)

  insert-back :
      (x : A) (ys : List A)
      → insert by_test x (filter (λ a. not (p a)) ys) ≡ x ∷ filter (λ a. not (p a)) ys
  unfolding insert
  insert-back x [] = refl
  insert-back x (y ∷ ys) = ground (arith, insert-back x ys)

  insert-parts :
      (x : A) (xs ys : List A)
      → insert by_test x (filter p xs ++ filter (λ a. not (p a)) ys) ≡ (
          if p x
          then x ∷ filter p xs ++ filter (λ a. not (p a)) ys
          else filter p xs ++ x ∷ filter (λ a. not (p a)) ys)
  unfolding insert
  insert-parts x [] ys = ground (arith, insert-back x ys)
  insert-parts x (y ∷ xs) ys = ground (arith, insert-parts x xs ys)

  pub sort-parts : (xs : List A) → sort by_test xs ≡ filter p xs ++ filter (λ a. not (p a)) xs
  unfolding sort
  sort-parts [] = refl
  sort-parts (x ∷ xs) = ground (arith, sort-parts xs, insert-parts x xs xs)

-- A sort by three levels puts them one after the other and keeps the order within each.
module _ {A : Type 0} (f : A → ℕ) where
  abbrev pub by_level : Comparator A
  by_level a b = compare (f a) (f b)

  abbrev pub level : ℕ → List A → List A
  level k = filter (λ a. f a == k)

  insert-behind :
      (k : ℕ) (x : A) (ys zs : List A)
      → k < f x
      → insert by_level x (level k ys ++ zs) ≡ level k ys ++ insert by_level x zs
  unfolding insert
  insert-behind k x [] zs h = refl
  insert-behind k x (y ∷ ys) zs h = ground (arith, insert-behind k x ys zs h)

  insert-before :
      (k : ℕ) (x : A) (ys zs : List A)
      → f x ≤ k
      → insert by_level x zs ≡ x ∷ zs
      → insert by_level x (level k ys ++ zs) ≡ x ∷ level k ys ++ zs
  unfolding insert
  insert-before k x [] zs h e = e
  insert-before k x (y ∷ ys) zs h e = ground (arith, insert-before k x ys zs h e)

  insert-nil : (x : A) → insert by_level x [] ≡ x ∷ []
  unfolding insert
  insert-nil x = refl

  insert-levels :
      (x : A) (xs : List A)
      → f x < 3
      → insert by_level x (level 0 xs ++ (level 1 xs ++ (level 2 xs ++ [])))
        ≡ level 0 (x ∷ xs) ++ (level 1 (x ∷ xs) ++ (level 2 (x ∷ xs) ++ []))
  insert-levels x xs h = ground (
    arith,
    insert-behind 0 x xs (level 1 xs ++ (level 2 xs ++ [])),
    insert-behind 1 x xs (level 2 xs ++ []),
    insert-behind 2 x xs [],
    insert-before 2 x xs [],
    insert-before 1 x xs (level 2 xs ++ []),
    insert-before 0 x xs (level 1 xs ++ (level 2 xs ++ [])),
    insert-nil x,
  )

  sort-three :
      (xs : List A)
      → ((x : A) → f x < 3)
      → sort by_level xs ≡ level 0 xs ++ (level 1 xs ++ (level 2 xs ++ []))
  unfolding sort
  sort-three [] h = refl
  sort-three (x ∷ xs) h = ap (insert by_level x) (sort-three xs h) ∙ insert-levels x xs (h x)

  pub sort-levels :
      (xs : List A)
      → ((x : A) → f x < 3)
      → sort by_level xs ≡ level 0 xs ++ (level 1 xs ++ level 2 xs)
  sort-levels xs h = rw (append-nil (level 2 xs)) at (sort-three xs h)
