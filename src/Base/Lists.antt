-- ===== src/Base/Lists.antt =====
-- Lists measured and indexed by native numbers, and the array methods that the dashboard calls.
use Prim.Native.Nat.{ℕ, zero, suc, ◌+◌, ◌-◌, ◌≤◌, min}
use mathlib.Core.Path.{◌≡◌, refl, ap, sym}
use mathlib.Core.Logic.{inl, inr}
use mathlib.Core.Bool.{Bool, true, false, ◌&&◌, ◌||◌}
use mathlib.Core.List.{List, [], ◌∷◌, ◌++◌, map}
use mathlib.Core.Option.{Option, none, some}
use native.Mathlib.Omega.{arith}
use rmm_rxf_sys_de.Base.Tests.{if◌then◌else◌, ltb, Bool-cases}

module _ {ℓ} {A : Type ℓ} where
  abbrev pub length : List A → ℕ
  length [] = 0
  length (x ∷ xs) = suc (length xs)

  abbrev pub get_elem? : List A → ℕ → Option A
  get_elem? [] i = none
  get_elem? (x ∷ xs) zero = some x
  get_elem? (x ∷ xs) (suc i) = get_elem? xs i

  abbrev pub take : ℕ → List A → List A
  take zero xs = []
  take (suc n) [] = []
  take (suc n) (x ∷ xs) = x ∷ take n xs

  abbrev pub drop : ℕ → List A → List A
  drop zero xs = xs
  drop (suc n) [] = []
  drop (suc n) (x ∷ xs) = drop n xs

  abbrev pub replicate : ℕ → A → List A
  replicate zero a = []
  replicate (suc n) a = a ∷ replicate n a

  -- `xs.filter(p)`: the library's `filter` wants a decision.
  abbrev pub filter : (A → Bool) → List A → List A
  filter p [] = []
  filter p (x ∷ xs) = let rest = filter p xs in if p x then x ∷ rest else rest

  abbrev pub any : (A → Bool) → List A → Bool
  any p [] = false
  any p (x ∷ xs) = p x || any p xs

  abbrev pub all : (A → Bool) → List A → Bool
  all p [] = true
  all p (x ∷ xs) = p x && all p xs

  -- `xs.find(p)`
  abbrev pub find : (A → Bool) → List A → Option A
  find p [] = none
  find p (x ∷ xs) = let rest = find p xs in if p x then some x else rest

  -- `xs.filter(p).length`
  abbrev pub count : (A → Bool) → List A → ℕ
  count p xs = length (filter p xs)

  abbrev pub sum_of : (A → ℕ) → List A → ℕ
  sum_of f [] = 0
  sum_of f (x ∷ xs) = f x + sum_of f xs

module _ {ℓ} {A : Type ℓ} where
  pub length-append : (xs ys : List A) → length (xs ++ ys) ≡ length xs + length ys
  length-append [] ys = omega arith
  length-append (x ∷ xs) ys = omega (arith, length-append xs ys)

  pub take-append-drop : (n : ℕ) (xs : List A) → take n xs ++ drop n xs ≡ xs
  take-append-drop zero xs = refl
  take-append-drop (suc n) [] = refl
  take-append-drop (suc n) (x ∷ xs) = rw (take-append-drop n xs)

  pub length-take : (n : ℕ) (xs : List A) → length (take n xs) ≡ min n (length xs)
  length-take zero xs = omega arith
  length-take (suc n) [] = omega arith
  length-take (suc n) (x ∷ xs) = omega (arith, length-take n xs)

  pub length-drop : (n : ℕ) (xs : List A) → length (drop n xs) ≡ length xs - n
  length-drop zero xs = omega arith
  length-drop (suc n) [] = omega arith
  length-drop (suc n) (x ∷ xs) = omega (arith, length-drop n xs)

  pub length-replicate : (n : ℕ) (a : A) → length (replicate n a) ≡ n
  length-replicate zero a = refl
  length-replicate (suc n) a = ap suc (length-replicate n a)

  pub count-le-length : (p : A → Bool) (xs : List A) → count p xs ≤ length xs
  count-le-length p [] = omega arith
  count-le-length p (x ∷ xs) = ground (arith, count-le-length p xs)

  pub any-count : (p : A → Bool) (xs : List A) → ltb 0 (count p xs) ≡ any p xs
  any-count p [] = refl
  any-count p (x ∷ xs) = ground (arith, any-count p xs)

  pub any-append : (p : A → Bool) (xs ys : List A) → any p (xs ++ ys) ≡ (any p xs || any p ys)
  any-append p [] ys = refl
  any-append p (x ∷ xs) ys = ground (arith, any-append p xs ys)

  pub any-or : (p q : A → Bool) (xs : List A) → any (λ x. p x || q x) xs ≡ (any p xs || any q xs)
  any-or p q [] = refl
  any-or p q (x ∷ xs) = ground (arith, any-or p q xs)

  pub any-none : (xs : List A) → any (λ x. false) xs ≡ false
  any-none [] = refl
  any-none (x ∷ xs) = any-none xs

  pub any-filter : (p q : A → Bool) (xs : List A) → any p (filter q xs) ≡ any (λ x. q x && p x) xs
  any-filter p q [] = refl
  any-filter p q (x ∷ xs) = ground (arith, any-filter p q xs)

  pub any-eq : (p q : A → Bool) → ((x : A) → p x ≡ q x) → (xs : List A) → any p xs ≡ any q xs
  any-eq p q h [] = refl
  any-eq p q h (x ∷ xs) = rw (h x, any-eq p q h xs)

module _ {ℓ} {A : Type ℓ} (p : A → Bool) where
  pub any-at : (xs : List A) (x : A) (ys : List A) → p x ≡ true → any p (xs ++ x ∷ ys) ≡ true
  any-at [] x ys h = rw (h)
  any-at (y ∷ xs) x ys h = ground (arith, any-at xs x ys h)

  pub any-replaced :
      (xs : List A) (x y : A) (ys : List A)
      → p x ≡ p y
      → any p (xs ++ x ∷ ys) ≡ any p (xs ++ y ∷ ys)
  any-replaced [] x y ys e = rw (e)
  any-replaced (z ∷ xs) x y ys e = rw (any-replaced xs x y ys e)

module _ {ℓ κ} {A : Type ℓ} {B : Type κ} where
  pub any-map : (p : B → Bool) (f : A → B) (xs : List A) → any p (map f xs) ≡ any (λ x. p (f x)) xs
  any-map p f [] = refl
  any-map p f (x ∷ xs) = rw (any-map p f xs)

  -- Two searches in either order.
  pub any-swap :
      (r : A → B → Bool) (xs : List A) (ys : List B)
      → any (λ x. any (r x) ys) xs ≡ any (λ y. any (λ x. r x y) xs) ys
  any-swap r [] ys = sym (any-none ys)
  any-swap r (x ∷ xs) ys = rw (any-swap r xs ys) (sym (any-or (r x) (λ y. any (λ x. r x y) xs) ys))

  pub length-map : (f : A → B) (xs : List A) → length (map f xs) ≡ length xs
  length-map f [] = refl
  length-map f (x ∷ xs) = ap suc (length-map f xs)

module _ {ℓ κ} {A : Type ℓ} (P : A → Type κ) where
  abbrev pub All : List A → Type κ
  All [] = Unit
  All (x ∷ xs) = P x × All xs

  pub All-append : (xs ys : List A) → All xs → All ys → All (xs ++ ys)
  All-append [] ys h k = k
  All-append (x ∷ xs) ys (p, h) k = (p, All-append xs ys h k)

  pub All-of : ((x : A) → P x) → (xs : List A) → All xs
  All-of h [] = tt
  All-of h (x ∷ xs) = (h x, All-of h xs)

  pub All-filter : (p : A → Bool) (xs : List A) → All xs → All (filter p xs)
  All-filter p [] h = tt
  All-filter p (x ∷ xs) (k, h) = elim (Bool-cases (p x)) [
    | inl kept ↦ rw (kept) (k, All-filter p xs h)
    | inr dropped ↦ rw (dropped) (All-filter p xs h)
  ]

  pub All-take : (n : ℕ) (xs : List A) → All xs → All (take n xs)
  All-take zero xs h = tt
  All-take (suc n) [] h = tt
  All-take (suc n) (x ∷ xs) (p, h) = (p, All-take n xs h)

  pub All-drop : (n : ℕ) (xs : List A) → All xs → All (drop n xs)
  All-drop zero xs h = h
  All-drop (suc n) [] h = tt
  All-drop (suc n) (x ∷ xs) (p, h) = All-drop n xs h

  -- One of several, and another in its place.
  pub All-at : (xs : List A) (x : A) (ys : List A) → All (xs ++ x ∷ ys) → P x
  All-at [] x ys (p, h) = p
  All-at (y ∷ xs) x ys (p, h) = All-at xs x ys h

  pub All-without : (xs : List A) (x : A) (ys : List A) → All (xs ++ x ∷ ys) → All (xs ++ ys)
  All-without [] x ys (p, h) = h
  All-without (y ∷ xs) x ys (p, h) = (p, All-without xs x ys h)

  pub All-replaced :
      (xs : List A) (x y : A) (ys : List A) → All (xs ++ x ∷ ys) → P y → All (xs ++ y ∷ ys)
  All-replaced [] x y ys (p, h) q = (q, h)
  All-replaced (z ∷ xs) x y ys (p, h) q = (p, All-replaced xs x y ys h q)

module _ {ℓ κ μ} {A : Type ℓ} {P : A → Type κ} {Q : A → Type μ} where
  pub All-mono : ((x : A) → P x → Q x) → (xs : List A) → All P xs → All Q xs
  All-mono f [] h = tt
  All-mono f (x ∷ xs) (p, h) = (f x p, All-mono f xs h)

module _ {ℓ κ μ} {A : Type ℓ} {B : Type κ} (P : B → Type μ) (f : A → B) where
  pub All-map : (xs : List A) → All (λ x. P (f x)) xs → All P (map f xs)
  All-map [] h = tt
  All-map (x ∷ xs) (k, h) = (k, All-map xs h)

module _ {ℓ κ μ} {A : Type ℓ} (P : A → Type κ) (Q : A → Type μ) where
  pub All-both : (xs : List A) → All P xs → All Q xs → All (λ x. P x × Q x) xs
  All-both [] h k = tt
  All-both (x ∷ xs) (p, h) (q, k) = ((p, q), All-both xs h k)

module _ {ℓ} {A : Type ℓ} (p : A → Bool) where
  -- What a filter keeps has passed it.
  pub filter-All : (xs : List A) → All (λ x. p x ≡ true) (filter p xs)
  filter-All [] = tt
  filter-All (x ∷ xs) = elim (Bool-cases (p x)) [
    | inl kept ↦ rw (kept) (kept, filter-All xs)
    | inr dropped ↦ rw (dropped) (filter-All xs)
  ]
