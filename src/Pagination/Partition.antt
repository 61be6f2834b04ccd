-- ===== src/Pagination/Partition.antt =====
-- Turning through the pages shows the whole list: frontend/src/hooks/usePagination.ts.
use rmm_rxf_sys_de.Base.{
  ℕ, zero, suc, ◌+◌, ◌-◌, ◌*◌, ◌≤◌, ◌≡◌, refl, ◌∙◌, sym, ap, min, List, [], ◌∷◌, ◌++◌, length,
  arith, take, drop, String, ◌⊎◌, eq_iff,
}
use rmm_rxf_sys_de.Pagination.{Pager, note_key, set_page}
use rmm_rxf_sys_de.Pagination.View.{size_of, page_count_of, paginate}
use rmm_rxf_sys_de.Pagination.Bounds.{ceil_div_bounds, size_of_pos, next_start}

module _ {A : Type 0} where
  -- The rows of the first `n` pages, in order.
  unfoldable pub first_pages : ℕ → List A → Pager → List A
  first_pages zero items p = []
  first_pages (suc n) items p = first_pages n items p ++ (paginate items (set_page (suc n) p)).items

  take-nil : (n : ℕ) → take {A = A} n [] ≡ []
  take-nil zero = refl
  take-nil (suc n) = refl

  take-add : (a b : ℕ) (xs : List A) → take (a + b) xs ≡ take a xs ++ take b (drop a xs)
  take-add zero b xs = let e : 0 + b ≡ b = omega arith in rw e
  take-add (suc a) b [] = rw (take-nil (suc a + b), take-nil b)
  take-add (suc a) b (x ∷ xs) =
      let e : suc a + b ≡ suc (a + b) = omega arith in rw e (ap (◌∷◌ x) (take-add a b xs))

  take_all : (n : ℕ) (xs : List A) → length xs ≤ n → take n xs ≡ xs
  take_all zero [] h = refl
  take_all zero (x ∷ xs) h = absurd (omega arith)
  take_all (suc n) [] h = refl
  take_all (suc n) (x ∷ xs) h = ap (◌∷◌ x) (take_all n xs (omega arith))

module _ {A : Type 0} (items : List A) (p : Pager) where
  abbrev row_count : ℕ
  row_count = size_of p.page_size (length items)

  items-paginate :
      (n : ℕ)
      → suc n ≤ page_count_of (length items) row_count
      → (paginate items (set_page (suc n) p)).items ≡ take row_count (drop (n * row_count) items)
  unfolding paginate
  items-paginate n h =
      let e : min (suc n) (page_count_of (length items) row_count) ≡ suc n = omega arith in
      let width : suc n * row_count - n * row_count ≡ row_count =
        omega (arith, next_start n row_count) in
      let back : suc n - 1 ≡ n = omega arith in rw (e, back, width)

  first_pages-take :
      (n : ℕ)
      → n ≤ page_count_of (length items) row_count
      → first_pages n items p ≡ take (n * row_count) items
  unfolding first_pages
  first_pages-take zero h = let e : 0 * row_count ≡ 0 = omega arith in rw e
  first_pages-take (suc n) h =
      rw (first_pages-take n (omega arith), items-paginate n h, next_start n row_count)
        (sym (take-add (n * row_count) row_count items))

  -- The pages together are the list: every row is on exactly one page, and in order.
  pub pages_partition : first_pages (paginate items p).page_count items p ≡ items
  unfolding paginate
  pages_partition =
      let pos = size_of_pos p.page_size (length items) in
      let (enough, _) = ceil_div_bounds (length items) row_count pos in
      first_pages-take (page_count_of (length items) row_count) (omega arith)
      ∙ take_all (page_count_of (length items) row_count * row_count) items (grind arith)

-- A change of what narrows the list takes the view back to page 1; a render that changes nothing
-- keeps the page.
pub narrowing_resets :
    {A : Type 0} (key : String) (p : Pager) (items : List A)
    → ((paginate items (note_key key p)).page ≡ 1) × ((note_key key p).seen_key ≡ key)
      ⊎ (p.seen_key ≡ key) × (note_key key p ≡ p)
unfolding paginate note_key
narrowing_resets key p items = ground (arith, eq_iff key p.seen_key)
