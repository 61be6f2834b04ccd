-- ===== src/Pagination/Bounds.antt =====
-- The page that is shown is a page of the list: frontend/src/hooks/usePagination.ts.
use native.Mathlib.Nat.{div-add-mod, mod-lt}
use rmm_rxf_sys_de.Base.{
  ℕ, suc, ◌+◌, ◌-◌, ◌*◌, ◌≤◌, ◌<◌, ◌≡◌, ◌⊎◌, min, List, length, arith, length-take, length-drop,
  drop, ◌==◌, if◌then◌else◌,
}
use rmm_rxf_sys_de.Pagination.{PageSize, max_server_page, ceil_div, slice, Pager}
use rmm_rxf_sys_de.Pagination.View.{
  size_of, server_size_of, page_count_of, View, paginate, ServerView, server_paginate,
}

-- The pages are as many as are needed.
pub ceil_div_bounds :
    (total size : ℕ)
    → 0 < size
    → (total ≤ ceil_div total size * size) × (ceil_div total size * size < total + size)
ceil_div_bounds total size h = grind (arith, div-add-mod, mod-lt)

pub size_of_pos : (s : PageSize) (total : ℕ) → 0 < size_of s total
unfolding size_of
size_of_pos s total = ground arith

page_start :
    (k total size : ℕ) → 0 < size → 0 < total → suc k ≤ page_count_of total size → k * size < total
page_start k total size h t below = grind (arith, ceil_div_bounds total size h)

pub next_start : (k size : ℕ) → suc k * size ≡ k * size + size
next_start k size = omega arith

length-slice {ℓ} :
    {A : Type ℓ} (a n : ℕ) (xs : List A) → length (slice a (a + n) xs) ≡ min n (length xs - a)
length-slice a n xs = omega (arith, length-take (a + n - a) (drop a xs), length-drop a xs)

-- What the footer says about page `v` fits what the table shows.
pub record IsPage {A : Type 0} (v : View A) : Type 0 where
  pub first : 1 ≤ v.page
  pub last : v.page ≤ v.page_count
  pub within : v.to ≤ v.total
  pub shown : length v.items + v.from ≡ (if v.total == 0 then 0 else v.to + 1)
  pub never_blank : (length v.items ≡ 0) ⊎ (1 ≤ v.from)
  pub never_stranded : (v.total ≡ 0) ⊎ (0 < length v.items)

module _ {A : Type 0} (items : List A) (size k : ℕ) where
  -- The view of page `suc k`.
  abbrev cut : ℕ → View A
  cut page_count = record {
    items = slice (k * size) (suc k * size) items;
    page = suc k;
    page_count = page_count;
    total = length items;
    from = if length items == 0 then 0 else k * size + 1;
    to = min (suc k * size) (length items);
  }

  cut-IsPage :
      0 < size
      → suc k ≤ page_count_of (length items) size
      → IsPage (cut (page_count_of (length items) size))
  cut-IsPage pos below =
      let shown = rw (← next_start k size) at (length-slice (k * size) size items) in
      let start = page_start k (length items) size pos in
      record {
        first = omega arith;
        last = below;
        within = omega arith;
        shown = ground (arith, shown, start, next_start k size);
        never_blank = ground (arith, shown, start);
        never_stranded = ground (arith, shown, start);
      }

module _ {A : Type 0} (items : List A) (p : Pager) (valid : 1 ≤ p.page) where
  abbrev view_size : ℕ
  view_size = size_of p.page_size (length items)

  abbrev shown_page : ℕ
  shown_page = min p.page (page_count_of (length items) view_size)

  paginate-cut :
      paginate items p
      ≡ cut items view_size (shown_page - 1) (page_count_of (length items) view_size)
  unfolding paginate
  paginate-cut = let e : suc (shown_page - 1) ≡ shown_page = omega arith in rw e

  -- Whatever page was chosen before the list shrank: the page shown is one of the list's pages, it
  -- shows as many rows as the footer says, never more rows than there are, and it is blank only if
  -- the list is.
  pub paginate-IsPage : IsPage (paginate items p)
  paginate-IsPage = rw paginate-cut (
      cut-IsPage items view_size (shown_page - 1) (size_of_pos p.page_size (length items))
        (omega arith))

-- What the server is asked for.
pub record IsRequest (v : ServerView) : Type 0 where
  pub first : 1 ≤ v.page
  pub last : v.page ≤ v.page_count
  pub accepted : (1 ≤ v.limit) × (v.limit ≤ max_server_page)
  pub inside : (v.total ≡ 0) ⊎ (v.offset < v.total)
  pub row : (v.total ≡ 0) ⊎ (v.from ≡ v.offset + 1)
  pub fits : (v.to ≤ v.total) × (v.to ≤ v.offset + v.limit)

server_size_of_bounds :
    (s : PageSize) → (0 < server_size_of s) × (server_size_of s ≤ max_server_page)
unfolding server_size_of
server_size_of_bounds s = ground arith

-- The audit log never asks for more rows than the server returns, nor for a page behind the end.
pub server_paginate-IsRequest :
    (total : ℕ) (p : Pager) → 1 ≤ p.page → IsRequest (server_paginate total p)
unfolding server_paginate
server_paginate-IsRequest total p valid =
    let size = server_size_of p.page_size in
    let (pos, capped) = server_size_of_bounds p.page_size in
    let current = min p.page (page_count_of total size) in
    let back : suc (current - 1) ≡ current = omega arith in
    let start = page_start (current - 1) total size pos in
    let step = rw back at (next_start (current - 1) size) in
    record {
      first = omega arith;
      last = omega arith;
      accepted = (pos, capped);
      inside = ground (arith, start);
      row = ground arith;
      fits = (omega arith, omega arith);
    }
