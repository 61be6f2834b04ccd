-- ===== src/Patches/Sort/Address.antt =====
-- The address form of a sort and what a click on a column header does:
-- frontend/src/pages/patches/patchList.ts, lines 158 to 178.
use rmm_rxf_sys_de.Base.{◌≡◌, refl, ◌≢◌, ◌⊎◌, arith}
use rmm_rxf_sys_de.Patches.Sort.{
  SortKey, name, person, pending, security, scan, conn, SortDir, asc, desc, Sort, parse_sort,
  format_sort, next_sort, first_dir, turned,
}

parse_key :
    (k : SortKey) (d : SortDir)
    → parse_sort (format_sort (record { key = k; dir = d })) ≡ record { key = k; dir = d }
unfolding parse_sort format_sort
parse_key name asc = refl
parse_key name desc = refl
parse_key person asc = refl
parse_key person desc = refl
parse_key pending asc = refl
parse_key pending desc = refl
parse_key security asc = refl
parse_key security desc = refl
parse_key scan asc = refl
parse_key scan desc = refl
parse_key conn asc = refl
parse_key conn desc = refl

-- Every sort survives the address: reading what was written gives the same sort back, the default
-- sort (which is written as no parameter) included.
pub parse_sort-format_sort : (s : Sort) → parse_sort (format_sort s) ≡ s
parse_sort-format_sort s = parse_key s.key s.dir

-- After a click on a column the list is sorted by that column: turned round if it was sorted by it
-- already, and else in the column's natural direction. A second click only turns it round.
pub next_sort_clicks :
    (s : Sort) (k : SortKey)
    → ((next_sort s k).key ≡ k)
      × ((s.key ≡ k) × ((next_sort s k).dir ≡ turned s.dir)
          ⊎ (s.key ≢ k) × ((next_sort s k).dir ≡ first_dir k))
      × (next_sort (next_sort s k) k ≡ record { key = k; dir = turned (next_sort s k).dir })
unfolding next_sort
next_sort_clicks s k = ground arith
