-- ===== src/Palette/Recent/Laws.antt =====
-- What the palette remembers: frontend/src/shell/palette/recent.ts.
use rmm_rxf_sys_de.Base.{
  ℕ, zero, suc, ◌≤◌, ◌≡◌, refl, inl, inr, Bool-cases, true, false, String, Option, none, some, List,
  [], ◌∷◌, All, length, take, ◌==◌, arith,
}
use rmm_rxf_sys_de.Palette.Recent.{
  max_recent, Item, whole, other, is_safe_id, ids, except, distinct, valid, Storage, closed,
  open_storage, load_recent, remember_device,
}

-- No id twice.
abbrev pub IsDistinct : List ℕ → Type 0
IsDistinct [] = Unit
IsDistinct (x ∷ xs) = All (λ y. (y == x) ≡ false) xs × IsDistinct xs

module _ (P : ℕ → Type 0) where
  All-take : (n : ℕ) (xs : List ℕ) → All P xs → All P (take n xs)
  All-take zero xs h = tt
  All-take (suc n) [] h = tt
  All-take (suc n) (x ∷ xs) (p, h) = (p, All-take n xs h)

  All-except : (id : ℕ) (xs : List ℕ) → All P xs → All P (except id xs)
  All-except id [] h = tt
  All-except id (x ∷ xs) (p, h) = elim (Bool-cases (x == id)) [
    | inl same ↦ rw (same) (All-except id xs h)
    | inr differs ↦ rw (differs) (p, All-except id xs h)
  ]

  All-distinct : (xs : List ℕ) → All P xs → All P (distinct xs)
  unfolding distinct
  All-distinct [] h = tt
  All-distinct (x ∷ xs) (p, h) = (p, All-except x (distinct xs) (All-distinct xs h))

except-All : (id : ℕ) (xs : List ℕ) → All (λ y. (y == id) ≡ false) (except id xs)
except-All id [] = tt
except-All id (x ∷ xs) = elim (Bool-cases (x == id)) [
  | inl same ↦ rw (same) (except-All id xs)
  | inr differs ↦ rw (differs) (differs, except-All id xs)
]

except-IsDistinct : (id : ℕ) (xs : List ℕ) → IsDistinct xs → IsDistinct (except id xs)
except-IsDistinct id [] h = tt
except-IsDistinct id (x ∷ xs) (p, h) = elim (Bool-cases (x == id)) [
  | inl same ↦ rw (same) (except-IsDistinct id xs h)
  | inr differs ↦
      rw (differs) (All-except (λ y. (y == x) ≡ false) id xs p, except-IsDistinct id xs h)
]

take-IsDistinct : (n : ℕ) (xs : List ℕ) → IsDistinct xs → IsDistinct (take n xs)
take-IsDistinct zero xs h = tt
take-IsDistinct (suc n) [] h = tt
take-IsDistinct (suc n) (x ∷ xs) (p, h) =
    (All-take (λ y. (y == x) ≡ false) n xs p, take-IsDistinct n xs h)

distinct-IsDistinct : (xs : List ℕ) → IsDistinct (distinct xs)
unfolding distinct
distinct-IsDistinct [] = tt
distinct-IsDistinct (x ∷ xs) =
    (except-All x (distinct xs), except-IsDistinct x (distinct xs) (distinct-IsDistinct xs))

valid-IsDistinct : (o : Option (Option (List Item))) → IsDistinct (valid o)
valid-IsDistinct none = tt
valid-IsDistinct (some none) = tt
valid-IsDistinct (some (some items)) =
    take-IsDistinct max_recent (distinct (ids items)) (distinct-IsDistinct (ids items))

length-take-le : (n : ℕ) (xs : List ℕ) → length (take n xs) ≤ n
length-take-le zero xs = omega arith
length-take-le (suc n) [] = omega arith
length-take-le (suc n) (x ∷ xs) = omega (arith, length-take-le n xs)

-- A list that the palette may hold: ids of devices, none twice, at most five.
abbrev pub IsRecent : List ℕ → Type 0
IsRecent xs = All (λ x. is_safe_id x ≡ true) xs × IsDistinct xs × (length xs ≤ max_recent)

ids-All : (items : List Item) → All (λ x. is_safe_id x ≡ true) (ids items)
unfolding ids
ids-All [] = tt
ids-All (other ∷ items) = ids-All items
ids-All (whole n ∷ items) = elim (Bool-cases (is_safe_id n)) [
  | inl safe ↦ rw (safe) (safe, ids-All items)
  | inr unsafe ↦ rw (unsafe) (ids-All items)
]

valid-All : (o : Option (Option (List Item))) → All (λ x. is_safe_id x ≡ true) (valid o)
valid-All none = tt
valid-All (some none) = tt
valid-All (some (some items)) =
    All-take (λ x. is_safe_id x ≡ true) max_recent (distinct (ids items))
      (All-distinct (λ x. is_safe_id x ≡ true) (ids items) (ids-All items))

module _ (parse : String → Option (Option (List Item))) (print : List ℕ → String) where
  load-All : (storage : Storage) → All (λ x. is_safe_id x ≡ true) (load_recent parse print storage)
  unfolding load_recent
  load-All closed = tt
  load-All (open_storage none) = valid-All (parse "[]")
  load-All (open_storage (some raw)) = valid-All (parse raw)

  load-IsDistinct : (storage : Storage) → IsDistinct (load_recent parse print storage)
  unfolding load_recent
  load-IsDistinct closed = tt
  load-IsDistinct (open_storage none) = valid-IsDistinct (parse "[]")
  load-IsDistinct (open_storage (some raw)) = valid-IsDistinct (parse raw)

  -- Whatever stood in the storage, opening a device leaves a list of at most five ids of devices,
  -- none of them twice, with that device in front.
  pub remember_device-IsRecent :
      (id : ℕ) (storage : Storage)
      → is_safe_id id ≡ true
      → IsRecent (remember_device parse print id storage).0
        × ((rest : List ℕ) × ((remember_device parse print id storage).0 ≡ id ∷ rest))
  unfolding remember_device
  remember_device-IsRecent id storage h =
      let loaded = load_recent parse print storage in
      let older = except id loaded in
      let safe = All-except (λ x. is_safe_id x ≡ true) id loaded (load-All storage) in
      let apart = except-IsDistinct id loaded (load-IsDistinct storage) in
      (
        (
          (h, All-take (λ x. is_safe_id x ≡ true) 4 older safe),
          take-IsDistinct max_recent (id ∷ older) (except-All id loaded, apart),
          length-take-le max_recent (id ∷ older),
        ),
        (take 4 older, refl),
      )
