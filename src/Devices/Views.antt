-- ===== src/Devices/Views.antt =====
-- The saved views of the device list: frontend/src/pages/devices/savedViews.ts.
use text.Mathlib.TextPositions.{eq_refl}
use rmm_rxf_sys_de.Base.{
  ℕ, zero, suc, ◌+◌, ◌-◌, ◌≤◌, ◌≡◌, refl, sym, ap, ◌∙◌, Bool, true, not, String, Option, none, some,
  List, [], ◌∷◌, ◌++◌, filter, count, length, take, drop, or_else, str_eq, arith, length-append,
  length-drop, if◌then◌else◌,
}
use rmm_rxf_sys_de.Base.Text.{decimal, parts}

pub record SavedView : Type 0 where
  pub id : String
  pub name : String
  pub query : String

abbrev pub max_views : ℕ
max_views = 12

-- `isView(v)` has sorted out everything else that stands in a stored array; `parse` stands for
-- `JSON.parse`, `none` where it throws, and `some none` where the value is no array.
pub data Storage : Type 0 where
  closed : Storage
  open_storage : Option String → Storage

abbrev valid : Option (Option (List (Option SavedView))) → List SavedView
valid (some (some items)) = take max_views (views items)
  where
    views : List (Option SavedView) → List SavedView
    views [] = []
    views (none ∷ items) = views items
    views (some v ∷ items) = v ∷ views items
valid _ = []

unfoldable pub load_views :
    (parse : String → Option (Option (List (Option SavedView)))) → Storage → List SavedView
load_views parse closed = []
load_views parse (open_storage raw) = valid (parse (or_else raw "[]"))

unfoldable pub store_views : (print : List SavedView → String) → List SavedView → Storage → Storage
store_views print views closed = closed
store_views print views (open_storage raw) = open_storage (some (print views))

-- `lower` stands for `toLowerCase`.
module _ (lower : String → String) where
  abbrev pub is_called : String → SavedView → Bool
  is_called name v = str_eq (lower v.name) (lower name)

  -- `Date.now().toString(36)` is `stamp`.
  abbrev pub new_view : String → ℕ → String → String → SavedView
  new_view stamp others name query = record {
    id = parts (stamp ∷ decimal others ∷ []);
    name = name;
    query = query;
  }

  abbrev pub others : String → List SavedView → List SavedView
  others name views = filter (λ v. not (is_called name v)) views

  -- `xs.slice(-n)`
  abbrev pub last_of : ℕ → List SavedView → List SavedView
  last_of n xs = drop (length xs - n) xs

  unfoldable pub save : String → String → String → List SavedView → List SavedView
  save stamp name query views =
      let rest = others name views in
      last_of max_views (rest ++ new_view stamp (length rest) name query ∷ [])

unfoldable pub remove : String → List SavedView → List SavedView
remove id views = filter (λ (v : SavedView). not (str_eq v.id id)) views

drop-append : (k : ℕ) (xs ys : List SavedView) → k ≤ length xs → drop k (xs ++ ys) ≡ drop k xs ++ ys
drop-append zero xs ys h = refl
drop-append (suc k) [] ys h = ground arith
drop-append (suc k) (x ∷ xs) ys h = drop-append k xs ys (omega (arith, h))

count-drop : (p : SavedView → Bool) (k : ℕ) (xs : List SavedView) → count p (drop k xs) ≤ count p xs
count-drop p zero xs = omega arith
count-drop p (suc k) [] = omega arith
count-drop p (suc k) (x ∷ xs) = ground (arith, count-drop p k xs)

count-append-one :
    (p : SavedView → Bool) (xs : List SavedView) (v : SavedView)
    → count p (xs ++ v ∷ []) ≡ count p xs + (if p v then 1 else 0)
count-append-one p [] v = ground arith
count-append-one p (x ∷ xs) v = ground (arith, count-append-one p xs v)

module _ (lower : String → String) where
  count-others :
      (name : String) (views : List SavedView)
      → count (is_called lower name) (others lower name views) ≡ 0
  count-others name [] = refl
  count-others name (v ∷ views) = ground (arith, count-others name views)

  save-eq :
      (stamp name query : String) (views : List SavedView)
      → save lower stamp name query views
        ≡ drop (length (others lower name views) + 1 - max_views) (others lower name views)
          ++ new_view lower stamp (length (others lower name views)) name query ∷ []
  unfolding save
  save-eq stamp name query views =
      let rest = others lower name views in
      let v = new_view lower stamp (length rest) name query in
      ap (λ n. drop (n - max_views) (rest ++ v ∷ [])) (length-append rest (v ∷ []))
      ∙ drop-append (length rest + 1 - max_views) rest (v ∷ []) (omega arith)

  -- Saving leaves at most twelve views, exactly one of them with the name, whatever its case: the
  -- new one, which stands last, behind the latest of the views with other names.
  pub save_lem :
      (stamp name query : String) (views : List SavedView)
      → (length (save lower stamp name query views) ≤ max_views)
        × (count (is_called lower name) (save lower stamp name query views) ≡ 1)
        × (save lower stamp name query views
            ≡ last_of lower 11 (others lower name views)
              ++ new_view lower stamp (length (others lower name views)) name query ∷ [])
  save_lem stamp name query views =
      let rest = others lower name views in
      let v = new_view lower stamp (length rest) name query in
      let k = length rest + 1 - max_views in
      let latest : length rest - 11 ≡ k = omega arith in
      let own : is_called lower name v ≡ true = eq_refl (lower name) in
      rw (save-eq stamp name query views) (
        omega (arith, length-append (drop k rest) (v ∷ []), length-drop k rest),
        ground (
          arith,
          own,
          count-append-one (is_called lower name) (drop k rest) v,
          count-drop (is_called lower name) k rest,
          count-others name views,
        ),
        ap (λ n. drop n rest ++ v ∷ []) (sym latest),
      )
