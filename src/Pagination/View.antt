-- ===== src/Pagination/View.antt =====
-- What the two hooks return: frontend/src/hooks/usePagination.ts, lines 68 to 101 and 133 to 163.
use rmm_rxf_sys_de.Base.{ℕ, ◌+◌, ◌-◌, ◌*◌, min, max, List, length, ◌==◌, if◌then◌else◌}
use rmm_rxf_sys_de.Pagination.{
  PageSize, size_25, size_50, size_100, alle, max_server_page, ceil_div, slice, Pager,
}

unfoldable pub size_of : PageSize → ℕ → ℕ
size_of size_25 total = 25
size_of size_50 total = 50
size_of size_100 total = 100
size_of alle total = max total 1

unfoldable pub server_size_of : PageSize → ℕ
server_size_of size_25 = 25
server_size_of size_50 = 50
server_size_of size_100 = 100
server_size_of alle = max_server_page

abbrev pub page_count_of : ℕ → ℕ → ℕ
page_count_of total size = max 1 (ceil_div total size)

pub record View (A : Type 0) : Type 0 where
  pub items : List A
  pub page : ℕ
  pub page_count : ℕ
  pub total : ℕ
  pub from : ℕ
  pub to : ℕ

unfoldable pub paginate : {A : Type 0} → List A → Pager → View A
unfolding size_of
paginate items p =
    let total = length items in
    let size = size_of p.page_size total in
    let page_count = page_count_of total size in
    let current = min p.page page_count in
    record {
      items = slice ((current - 1) * size) (current * size) items;
      page = current;
      page_count = page_count;
      total = total;
      from = if total == 0 then 0 else (current - 1) * size + 1;
      to = min (current * size) total;
    }

pub record ServerView : Type 0 where
  pub page : ℕ
  pub page_count : ℕ
  pub total : ℕ
  pub from : ℕ
  pub to : ℕ
  pub limit : ℕ
  pub offset : ℕ

unfoldable pub server_paginate : ℕ → Pager → ServerView
unfolding server_size_of
server_paginate total p =
    let size = server_size_of p.page_size in
    let page_count = page_count_of total size in
    let current = min p.page page_count in
    record {
      page = current;
      page_count = page_count;
      total = total;
      from = if total == 0 then 0 else (current - 1) * size + 1;
      to = min (current * size) total;
      limit = size;
      offset = (current - 1) * size;
    }
