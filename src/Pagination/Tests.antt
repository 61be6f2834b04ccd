-- ===== src/Pagination/Tests.antt =====
-- The properties of paging at a small list: frontend/src/hooks/usePagination.ts.
use rmm_rxf_sys_de.Base.{
  ℕ, ◌≡◌, String, Option, some, none, List, arith, str_eq, if◌then◌else◌, replicate,
}
use rmm_rxf_sys_de.Pagination.{Pager, size_25}
use rmm_rxf_sys_de.Pagination.View.{paginate}
use rmm_rxf_sys_de.Pagination.Bounds.{IsPage, paginate-IsPage}
use rmm_rxf_sys_de.Pagination.Partition.{first_pages, pages_partition}

abbrev rows : List ℕ
rows = replicate 60 7

-- A page that the list no longer has.
abbrev pager : Pager
pager = record { page_size = size_25; page = 9; seen_key = "all" }

paginate-IsPage_example : IsPage (paginate rows pager)
paginate-IsPage_example = paginate-IsPage rows pager (omega arith)

pages_partition_example : first_pages (paginate rows pager).page_count rows pager ≡ rows
pages_partition_example = pages_partition rows pager

-- Reads the three numerals.
abbrev number : String → Option ℕ
number t =
    if str_eq t "25"
    then some 25
    else (if str_eq t "50" then some 50 else (if str_eq t "100" then some 100 else none))
