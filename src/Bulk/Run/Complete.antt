-- ===== src/Bulk/Run/Complete.antt =====
-- No item is lost, run twice or held up by another's failure: frontend/src/pages/devices/bulk.ts,
-- lines 25 to 39.
use rmm_rxf_sys_de.Base.{
  ℕ, ◌+◌, ◌≤◌, ◌<◌, ◌≡◌, refl, ◌∙◌, ap, ◌⊎◌, inl, inr, Bool, min, List, [], ◌∷◌, ◌++◌, map, arith,
  length, take, drop, count, length-take, length-drop, length-append, take-append-drop,
}
use rmm_rxf_sys_de.Bulk.Run.{
  Failure, Bulk, Settled, resolved, rejected, start, taken, left, settle, Step, settles, Steps,
  here, next,
}

module _ {A E : Type 0} where
  abbrev pub failed_items : Bulk A E → List A
  failed_items s = map (λ f. f.item) s.failed

  -- How many items with `p` the state holds, wherever they are.
  abbrev held : (A → Bool) → Bulk A E → ℕ
  held p s = count p s.rest + count p s.running + count p s.ok + count p (failed_items s)

module _ {A E : Type 0} (concurrency : ℕ) (items : List A) where
  pub record IsValid (s : Bulk A E) : Type 0 where
    pub bounded : length s.running ≤ concurrency
    pub busy : (length s.rest ≡ 0) ⊎ (length s.running ≡ min concurrency (length items))
    pub kept : (p : A → Bool) → held p s ≡ count p items

count-append :
    {A : Type 0} (p : A → Bool) (xs ys : List A) → count p (xs ++ ys) ≡ count p xs + count p ys
count-append p [] ys = omega arith
count-append p (x ∷ xs) ys = ground (arith, count-append p xs ys)

pub map-append_one :
    {A B : Type 0} (f : A → B) (xs : List A) (x : A) → map f (xs ++ x ∷ []) ≡ map f xs ++ f x ∷ []
map-append_one f [] x = refl
map-append_one f (y ∷ ys) x = rw (map-append_one f ys x)

count-taken :
    {A : Type 0} (p : A → Bool) (xs rest ys : List A)
    → count p (taken xs rest ys) + count p (left rest) ≡ count p xs + count p ys + count p rest
count-taken p xs [] ys = omega (arith, count-append p xs ys)
count-taken p xs (b ∷ rest) ys =
    omega
      (arith, count-append p xs (b ∷ ys), count-append p (b ∷ []) ys, count-append p (b ∷ []) rest)

-- The worker stops, or it has an item again.
length-taken :
    {A : Type 0} (xs rest ys : List A)
    → (length rest ≡ 0)
        × (length (left rest) ≡ 0)
        × (length (taken xs rest ys) ≡ length xs + length ys)
      ⊎ (length rest ≡ length (left rest) + 1)
        × (length (taken xs rest ys) ≡ length xs + length ys + 1)
length-taken xs [] ys = inl (refl, refl, length-append xs ys)
length-taken xs (b ∷ rest) ys = inr (omega arith, omega (arith, length-append xs (b ∷ ys)))

module _ {A : Type 0} (E : Type 0) where
  start-held :
      (p : A → Bool) (c : ℕ) (items : List A) → held {E = E} p (start c items) ≡ count p items
  unfolding start
  start-held p c items =
      let workers = min c (length items) in
      omega (
        arith,
        count-append p (take workers items) (drop workers items),
        ap (count p) (take-append-drop workers items),
      )

module _ {A E : Type 0} where
  settle-held :
      (p : A → Bool) (xs : List A) (a : A) (ys : List A) (r : Settled E) (s : Bulk A E)
      → s.running ≡ xs ++ a ∷ ys
      → held p (settle xs a ys r s) ≡ held p s
  unfolding settle
  settle-held p xs a ys resolved s e = omega (
    arith,
    ap (count p) e,
    count-append p xs (a ∷ ys),
    count-append p (a ∷ []) ys,
    count-taken p xs s.rest ys,
    count-append p s.ok (a ∷ []),
  )
  settle-held p xs a ys (rejected err) s e =
      let more : Failure A E = record { item = a; error = err } in
      omega (
        arith,
        ap (count p) e,
        count-append p xs (a ∷ ys),
        count-append p (a ∷ []) ys,
        count-taken p xs s.rest ys,
        count-append p (failed_items s) (a ∷ []),
        ap (count p) (map-append_one (λ (f : Failure A E). f.item) s.failed more),
      )

  settle-running :
      (xs : List A) (a : A) (ys : List A) (r : Settled E) (s : Bulk A E)
      → ((settle xs a ys r s).running ≡ taken xs s.rest ys)
        × ((settle xs a ys r s).rest ≡ left s.rest)
  unfolding settle
  settle-running xs a ys resolved s = (refl, refl)
  settle-running xs a ys (rejected e) s = (refl, refl)

module _ {A E : Type 0} (concurrency : ℕ) (items : List A) where
  pub start-IsValid : IsValid {E = E} concurrency items (start concurrency items)
  unfolding start
  start-IsValid =
      let workers = min concurrency (length items) in
      record {
        bounded = omega (arith, length-take workers items);
        busy = inr (omega (arith, length-take workers items));
        kept = λ p. start-held E p concurrency items;
      }

  Step-IsValid :
      {s t : Bulk A E} → Step s t → IsValid concurrency items s → IsValid concurrency items t
  Step-IsValid (settles s xs ys a r e) v =
      let (on, more) = settle-running xs a ys r s in
      let shorter = ap length e ∙ length-append xs (a ∷ ys) in
      record {
        bounded = rw on (omega (arith, length-taken xs s.rest ys));
        busy = rw (on, more) (ground (arith, length-taken xs s.rest ys, v.busy));
        kept = λ p. settle-held p xs a ys r s e ∙ v.kept p;
      }

  pub Steps-IsValid :
      {s : Bulk A E} {n : ℕ} {t : Bulk A E}
      → Steps s n t
      → IsValid concurrency items s
      → IsValid concurrency items t
  Steps-IsValid here v = v
  Steps-IsValid (next r st) v = Step-IsValid st (Steps-IsValid r v)

-- Calls that have not settled yet.
abbrev pub unsettled : {A E : Type 0} → Bulk A E → ℕ
unsettled s = length s.rest + length s.running

module _ {A E : Type 0} where
  Step-unsettled : {s t : Bulk A E} → Step s t → unsettled s ≡ unsettled t + 1
  Step-unsettled (settles s xs ys a r e) =
      let (on, more) = settle-running xs a ys r s in
      let shorter = ap length e ∙ length-append xs (a ∷ ys) in
      rw (on, more) (omega (arith, length-taken xs s.rest ys))

  Steps-unsettled :
      {s : Bulk A E} {n : ℕ} {t : Bulk A E} → Steps s n t → unsettled s ≡ unsettled t + n
  Steps-unsettled here = omega arith
  Steps-unsettled (next r st) = omega (arith, Steps-unsettled r, Step-unsettled st)

start-unsettled :
    {A : Type 0} (E : Type 0) (c : ℕ) (items : List A)
    → unsettled {E = E} (start c items) ≡ length items
unfolding start
start-unsettled E c items =
    let workers = min c (length items) in
    omega (arith, length-take workers items, length-drop workers items)

-- While a round runs, at most `concurrency` calls are out; each settled call, whatever its outcome,
-- brings the round one call nearer to its end; and as long as calls are missing some call is out, so
-- a failure never holds the others up.
pub bulk_progress :
    {A E : Type 0} (concurrency : ℕ) (items : List A) (n : ℕ) (s : Bulk A E)
    → 0 < concurrency
    → Steps (start concurrency items) n s
    → (length s.running ≤ concurrency)
      × (unsettled s + n ≡ length items)
      × ((n ≡ length items) ⊎ (0 < length s.running))
bulk_progress {E} concurrency items n s pos r =
    let v = Steps-IsValid concurrency items r (start-IsValid concurrency items) in
    let steps = Steps-unsettled r in
    let all = start-unsettled E concurrency items in
    (v.bounded, omega arith, ground (arith, v.busy))

-- When no call is out any more, every item is in the outcome exactly once, as done or as failed:
-- any property of items is met as often by the two lists together as by the items given.
pub bulk_complete :
    {A E : Type 0} (concurrency : ℕ) (items : List A) (n : ℕ) (s : Bulk A E) (p : A → Bool)
    → 0 < concurrency
    → Steps (start concurrency items) n s
    → s.running ≡ []
    → count p s.ok + count p (failed_items s) ≡ count p items
bulk_complete concurrency items n s p pos r done =
    let v = Steps-IsValid concurrency items r (start-IsValid concurrency items) in
    let (_, left_over, ends) = bulk_progress concurrency items n s pos r in
    let nothing_out = ap length done in
    let nothing_left : length s.rest ≡ 0 = ground arith in
    omega (arith, v.kept p, ap (count p) done, count_none p s.rest nothing_left)
  where
    count_none : {B : Type 0} (q : B → Bool) (xs : List B) → length xs ≡ 0 → count q xs ≡ 0
    count_none q [] h = refl
    count_none q (x ∷ xs) h = absurd (omega arith)
