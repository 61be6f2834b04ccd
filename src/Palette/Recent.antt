-- ===== src/Palette/Recent.antt =====
-- The devices opened last: frontend/src/shell/palette/recent.ts.
pub mod Laws
use rmm_rxf_sys_de.Base.{
  ℕ, Bool, not, ◌&&◌, String, Option, some, List, [], ◌∷◌, filter, take, ◌==◌, ltb, if◌then◌else◌,
  or_else,
}

abbrev pub max_recent : ℕ
max_recent = 5

-- What stands in a stored array: a whole number that is not negative, or anything else.
pub data Item : Type 0 where
  whole : ℕ → Item
  other : Item

-- `isId(v)`, with the id that it is: positive, and at most `Number.MAX_SAFE_INTEGER`.
abbrev pub is_safe_id : ℕ → Bool
is_safe_id n = ltb 0 n && ltb n 9007199254740992

-- `parsed.filter(isId)`
unfoldable pub ids : List Item → List ℕ
ids [] = []
ids (other ∷ items) = ids items
ids (whole n ∷ items) = let rest = ids items in if is_safe_id n then n ∷ rest else rest

abbrev pub except : ℕ → List ℕ → List ℕ
except id xs = filter (λ x. not (x == id)) xs

-- `[...new Set(xs)]`
unfoldable pub distinct : List ℕ → List ℕ
distinct [] = []
distinct (x ∷ xs) = x ∷ except x (distinct xs)

-- The key in the browser's storage, which may be closed; `parse` stands for `JSON.parse`, `none`
-- where it throws, and `some none` where the value is no array.
pub data Storage : Type 0 where
  closed : Storage
  open_storage : Option String → Storage

abbrev pub valid : Option (Option (List Item)) → List ℕ
valid (some (some items)) = take max_recent (distinct (ids items))
valid _ = []

module _ (parse : String → Option (Option (List Item))) (print : List ℕ → String) where
  unfoldable pub load_recent : Storage → List ℕ
  load_recent closed = []
  load_recent (open_storage raw) = valid (parse (or_else raw "[]"))

  abbrev stored : List ℕ → Storage → Storage
  stored next closed = closed
  stored next (open_storage raw) = open_storage (some (print next))

  -- The list that is returned, and the storage afterwards.
  unfoldable pub remember_device : ℕ → Storage → List ℕ × Storage
  remember_device id storage =
      let next = take max_recent (id ∷ except id (load_recent storage)) in
      (next, stored next storage)
