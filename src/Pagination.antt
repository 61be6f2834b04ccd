-- ===== src/Pagination.antt =====
-- Paging of lists: frontend/src/hooks/usePagination.ts. `Pager` is the state of the hook, `View`
-- what it returns. Pages count from 1: the footer offers no page below, so a page is a number that
-- is at least 1.
pub mod View
pub mod Bounds
pub mod Partition
pub mod Storage
mod Tests
use Prim.Native.String
use rmm_rxf_sys_de.Base.{ℕ, ◌+◌, ◌-◌, ◌/◌, String, List, take, drop, if◌then◌else◌, str_eq}

-- `25 | 50 | 100 | 'alle'`
pub data PageSize : Type 0 where
  size_25 size_50 size_100 alle : PageSize

abbrev pub default_size : PageSize
default_size = size_25

abbrev pub max_server_page : ℕ
max_server_page = 500

-- `Math.ceil(total / size)`
abbrev pub ceil_div : ℕ → ℕ → ℕ
ceil_div total size = (total + size - 1) / size

-- `items.slice(start, end)`
abbrev pub slice {ℓ} : {A : Type ℓ} → ℕ → ℕ → List A → List A
slice start end xs = take (end - start) (drop start xs)

pub record Pager : Type 0 where
  pub page_size : PageSize
  pub page : ℕ
  pub seen_key : String

-- The state before the first render.
abbrev pub open_pager : PageSize → String → Pager
open_pager loaded reset_key = record { page_size = loaded; page = 1; seen_key = reset_key }

-- The reset during render.
unfoldable pub note_key : String → Pager → Pager
note_key reset_key p =
    if str_eq reset_key p.seen_key then p else record p { seen_key = reset_key; page = 1 }

abbrev pub set_page : ℕ → Pager → Pager
set_page n p = record p { page = n }

-- The state part of `setPageSize`; `Storage` has the rest.
abbrev pub set_page_size : PageSize → Pager → Pager
set_page_size s p = record p { page_size = s; page = 1 }
