-- ===== src/Palette/Label.antt =====
-- How a device is named where someone picks it: frontend/src/deviceLabel.ts.
use rmm_rxf_sys_de.Base.{
  ◌≡◌, sym, ap, ◌∙◌, Bool, true, ◌&&◌, ◌||◌, String, List, [], ◌∷◌, any, count, leb, str_eq, eq_iff,
  arith, if◌then◌else◌,
}
use rmm_rxf_sys_de.Base.Text.{decimal, parts}
use rmm_rxf_sys_de.Fleet.Types.{Device}

-- `set.has(k)`, of a set of texts
abbrev pub has : List String → String → Bool
has set k = any (str_eq k) set

has-same : (set : List String) (k j : String) → str_eq k j ≡ true → has set j ≡ has set k
has-same set k j h = ap (has set) (sym ((eq_iff k j).0 h))

-- `lower` stands for `toLowerCase`.
module _ (lower : String → String) where
  -- The loop, with the names seen and those seen more than once.
  unfoldable pub find_duplicates : List String → List String → List Device → List String
  find_duplicates seen dups [] = dups
  find_duplicates seen dups (d ∷ ds) =
      let k = lower d.hostname in
      find_duplicates (k ∷ seen) (if has seen k then k ∷ dups else dups) ds

  unfoldable pub duplicate_hostnames : List Device → List String
  duplicate_hostnames ds = find_duplicates [] [] ds

  unfoldable pub device_label : Device → List String → String
  device_label d dups =
      if has dups (lower d.hostname)
      then parts (d.hostname ∷ " (#" ∷ decimal d.id ∷ ")" ∷ [])
      else d.hostname

  abbrev pub is_called : String → Device → Bool
  is_called k d = str_eq k (lower d.hostname)

  has-find_duplicates :
      (k : String) (seen dups : List String) (ds : List Device)
      → has (find_duplicates seen dups ds) k ≡ (
          has dups k
          || (leb 2 (count (is_called k) ds) || (has seen k && leb 1 (count (is_called k) ds))))
  unfolding find_duplicates
  has-find_duplicates k seen dups [] = ground arith
  has-find_duplicates k seen dups (d ∷ ds) =
      let j = lower d.hostname in
      ground (
        arith,
        has-same seen k j,
        has-find_duplicates k (j ∷ seen) (j ∷ dups) ds,
        has-find_duplicates k (j ∷ seen) dups ds,
      )

  -- The names that get an id are those that two or more devices of the fleet carry, whatever their
  -- case.
  pub has-duplicate_hostnames :
      (k : String) (ds : List Device)
      → has (duplicate_hostnames ds) k ≡ leb 2 (count (is_called k) ds)
  unfolding duplicate_hostnames
  has-duplicate_hostnames k ds = has-find_duplicates k [] [] ds ∙ ground arith
