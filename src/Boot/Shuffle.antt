-- ===== src/Boot/Shuffle.antt =====
-- Spreading the dots over the field: frontend/src/boot/bootPlan.ts, lines 102 to 112.
use rmm_rxf_sys_de.Base.{
  ℕ, zero, suc, ◌+◌, ◌≡◌, refl, ◌∙◌, Bool, Option, none, some, List, [], ◌∷◌, ◌++◌, ◌==◌, count,
  get_elem?, replicate, arith, if◌then◌else◌,
}
use rmm_rxf_sys_de.Boot.{
  State, danger, warn, off, ok, set_at, swap, exchange, shuffle, next_random, dots, keys,
}

abbrev one_if : Bool → ℕ
one_if b = if b then 1 else 0

module _ (p : State → Bool) where
  count-set_at :
      (i : ℕ) (x y : State) (ys : List State)
      → get_elem? ys i ≡ some y
      → count p (set_at i x ys) + one_if (p y) ≡ count p ys + one_if (p x)
  unfolding set_at
  count-set_at i x y [] h = ground arith
  count-set_at zero x y (z ∷ ys) h = ground arith
  count-set_at (suc i) x y (z ∷ ys) h = ground (arith, count-set_at i x y ys)

get_elem?-set_at :
    (i j : ℕ) (x y : State) (ys : List State)
    → get_elem? ys j ≡ some y
    → get_elem? (set_at i x ys) j ≡ some (if i == j then x else y)
unfolding set_at
get_elem?-set_at i j x y [] h = ground arith
get_elem?-set_at zero zero x y (z ∷ ys) h = ground arith
get_elem?-set_at zero (suc j) x y (z ∷ ys) h = ground arith
get_elem?-set_at (suc i) zero x y (z ∷ ys) h = ground arith
get_elem?-set_at (suc i) (suc j) x y (z ∷ ys) h = ground (arith, get_elem?-set_at i j x y ys)

module _ (p : State → Bool) where
  count-exchange :
      (i j : ℕ) (a b : Option State) (xs : List State)
      → get_elem? xs i ≡ a
      → get_elem? xs j ≡ b
      → count p (exchange i j a b xs) ≡ count p xs
  count-exchange i j none b xs h k = refl
  count-exchange i j (some a) none xs h k = refl
  count-exchange i j (some a) (some b) xs h k = ground (
    arith,
    count-set_at p i b a xs h,
    get_elem?-set_at i j b b xs k,
    count-set_at p j a b (set_at i b xs),
  )

  -- A shuffle keeps the number of dots of every kind.
  pub count-shuffle :
      (draw : ℕ → ℕ → ℕ) (i s : ℕ) (out : List State) → count p (shuffle draw i s out) ≡ count p out
  unfolding shuffle swap
  count-shuffle draw zero s out = refl
  count-shuffle draw (suc i) s out =
      count-shuffle draw i (next_random s) (swap (suc i) (draw (next_random s) (suc i)) out)
      ∙ count-exchange (suc i) (draw (next_random s) (suc i)) (get_elem? out (suc i))
          (get_elem? out (draw (next_random s) (suc i))) out refl refl

  count-replicate : (n : ℕ) (k : State) → count p (replicate n k) ≡ (if p k then n else 0)
  count-replicate zero k = ground arith
  count-replicate (suc n) k = ground (arith, count-replicate n k)

  count-append : (xs ys : List State) → count p (xs ++ ys) ≡ count p xs + count p ys
  count-append [] ys = omega arith
  count-append (x ∷ xs) ys = ground (arith, count-append xs ys)

  pub count-dots :
      (a b c d : ℕ)
      → count p (dots keys (a ∷ b ∷ c ∷ d ∷ []))
        ≡ (if p danger then a else 0)
          + (if p warn then b else 0)
          + (if p off then c else 0)
          + (if p ok then d else 0)
  count-dots a b c d = ground (
    arith,
    count-append (replicate a danger)
        (replicate b warn ++ (replicate c off ++ (replicate d ok ++ []))),
    count-append (replicate b warn) (replicate c off ++ (replicate d ok ++ [])),
    count-append (replicate c off) (replicate d ok ++ []),
    count-append (replicate d ok) [],
    count-replicate a danger,
    count-replicate b warn,
    count-replicate c off,
    count-replicate d ok,
  )
