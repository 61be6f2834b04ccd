-- ===== src/Pagination/Storage.antt =====
-- The page size that a browser remembers per list: frontend/src/hooks/usePagination.ts, lines 15 to
-- 28 and 76 to 84. Storage is blocked (`none`) or holds texts by key; a blocked storage throws, which
-- the code catches. `number` is `Number(raw)` where that is a whole number.
use Prim.Native.String
use rmm_rxf_sys_de.Base.{
  ℕ, ◌≡◌, refl, String, Option, none, some, List, [], ◌∷◌, arith, ◌==◌, str_eq, eq_iff,
  if◌then◌else◌,
}
use text.Mathlib.TextPositions.{eq_refl}
use rmm_rxf_sys_de.Base.Text.{decimal}
use rmm_rxf_sys_de.Pagination.{PageSize, size_25, size_50, size_100, alle, default_size}

abbrev pub Storage : Type 0
Storage = Option (List (String × String))

abbrev pub storage_key : String → String
storage_key list = String.◌++◌ "vulpexa-pagesize-" list

-- `localStorage.getItem`
unfoldable pub get_item : String → List (String × String) → Option String
get_item k [] = none
get_item k ((j, v) ∷ items) = if str_eq j k then some v else get_item k items

-- `localStorage.setItem`
unfoldable pub set_item : String → String → List (String × String) → List (String × String)
set_item k v [] = (k, v) ∷ []
set_item k v ((j, w) ∷ items) = if str_eq j k then (k, v) ∷ items else (j, w) ∷ set_item k v items

-- `String(s)`
abbrev pub size_text : PageSize → String
size_text size_25 = decimal 25
size_text size_50 = decimal 50
size_text size_100 = decimal 100
size_text alle = "alle"

-- `PAGE_SIZES.includes(n) ? n : DEFAULT_SIZE`
abbrev size_number : Option ℕ → PageSize
size_number none = default_size
size_number (some n) =
    if n == 25
    then size_25
    else (if n == 50 then size_50 else (if n == 100 then size_100 else default_size))

module _ (number : String → Option ℕ) where
  abbrev size_raw : Option String → PageSize
  size_raw none = default_size
  size_raw (some raw) = if str_eq raw "alle" then alle else size_number (number raw)

  unfoldable pub load_size : String → Storage → PageSize
  load_size list none = default_size
  load_size list (some items) = size_raw (get_item (storage_key list) items)

  unfoldable pub store_size : String → PageSize → Storage → Storage
  store_size list s none = none
  store_size list s (some items) = some (set_item (storage_key list) (size_text s) items)

get_item-set_item :
    (k j v : String) (items : List (String × String))
    → get_item j (set_item k v items) ≡ (if str_eq k j then some v else get_item j items)
unfolding get_item set_item
get_item-set_item k j v [] = refl
get_item-set_item k j v ((i, w) ∷ items) =
    ground (arith, eq_iff k j, eq_iff i k, eq_iff i j, get_item-set_item k j v items)

-- The chosen size is the one that the list opens with next time, if the storage is open and
-- `Number` reads the numerals of the three sizes.
pub load_size-store_size :
    (number : String → Option ℕ) (list : String) (s : PageSize) (items : List (String × String))
    → number (decimal 25) ≡ some 25
    → number (decimal 50) ≡ some 50
    → number (decimal 100) ≡ some 100
    → load_size number list (store_size number list s (some items)) ≡ s
unfolding load_size store_size decimal
load_size-store_size number list s items r25 r50 r100 =
    let k = storage_key list in rw (get_item-set_item k k (size_text s) items, eq_refl k) (read s)
  where
    read : (t : PageSize) → size_raw number (some (size_text t)) ≡ t
    read size_25 = rw r25
    read size_50 = rw r50
    read size_100 = rw r100
    read alle = refl
