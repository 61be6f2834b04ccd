-- ===== src/Devices/Selection.antt =====
-- The selection of the device list: frontend/src/pages/devices/DevicesPage.tsx, lines 290 to 326. A
-- `Set` of ids is a list of them, of which only the membership is read.
use rmm_rxf_sys_de.Base.{
  ℕ, ◌+◌, ◌-◌, ◌<◌, ◌≡◌, refl, ◌∙◌, zero, suc, get_elem?, Bool, true, false, not, ◌&&◌, Option,
  none, some, List, [], ◌∷◌, map, filter, any, all, All, All-mono, take, drop, count, length, min,
  max, ltb, leb, sym, ◌==◌, if◌then◌else◌, arith, Bool-cases, inl, inr,
}
use rmm_rxf_sys_de.Base.IdSet.{has, put_all, has-put_all}
use rmm_rxf_sys_de.Fleet.Types.{Device}
use rmm_rxf_sys_de.Pagination.{slice}

pub record Selection : Type 0 where
  pub selected : List ℕ
  pub anchor : Option ℕ

abbrev next_row : Option ℕ → Option ℕ
next_row none = none
next_row (some i) = some (i + 1)

-- `rows.findIndex((d) => d.id === id)`, `none` for -1
unfoldable pub find_index : ℕ → List Device → Option ℕ
find_index id [] = none
find_index id (d ∷ rows) =
    let later = next_row (find_index id rows) in if d.id == id then some 0 else later

-- The ids between the row of the last click and that of this one. With no row of this click the
-- slice starts at -1, the last row.
abbrev run : ℕ → Option ℕ → Option ℕ → List Device → List ℕ
run id none index rows = id ∷ []
run id (some from) none rows = map (λ (d : Device). d.id) (slice (length rows - 1) (from + 1) rows)
run id (some from) (some index) rows =
    map (λ (d : Device). d.id) (slice (min from index) (max from index + 1) rows)

abbrev pub anchor_row : Bool → Option ℕ → List Device → Option ℕ
anchor_row true (some a) rows = find_index a rows
anchor_row _ _ rows = none

unfoldable pub toggled : List Device → ℕ → Bool → Selection → List ℕ
toggled rows id shift s = run id (anchor_row shift s.anchor rows) (find_index id rows) rows

unfoldable pub toggle : List Device → ℕ → Bool → Selection → Selection
unfolding toggled
toggle rows id shift s = record {
  selected = put_all (not (has id s.selected)) (toggled rows id shift s) s.selected;
  anchor = some id;
}

unfoldable pub page_all : List Device → Selection → Bool
page_all rows s = ltb 0 (length rows) && all (λ (d : Device). has d.id s.selected) rows

unfoldable pub page_some : List Device → Selection → Bool
page_some rows s = any (λ (d : Device). has d.id s.selected) rows

unfoldable pub toggle_page : List Device → Selection → Selection
unfolding page_all
toggle_page rows s = record s {
  selected = put_all (not (page_all rows s)) (map (λ (d : Device). d.id) rows) s.selected;
}

-- What a bulk action gets: the selected devices that are still there.
unfoldable pub selected_devices : List Device → Selection → List Device
selected_devices devices s = filter (λ (d : Device). has d.id s.selected) devices

-- How many of them the filters hide.
unfoldable pub hidden_selected : List Device → List Device → Selection → ℕ
unfolding selected_devices
hidden_selected devices shown s =
    count (λ (d : Device). not (has d.id (map (λ (d : Device). d.id) shown)))
      (selected_devices devices s)

abbrev pub ids_of : List Device → List ℕ
ids_of rows = map (λ (d : Device). d.id) rows

-- No two rows are of the same device.
abbrev pub Distinct : List Device → Type 0
Distinct [] = Unit
Distinct (d ∷ rows) = (has d.id (ids_of rows) ≡ false) × Distinct rows

has-at :
    (p : ℕ) (rows : List Device) (d : Device)
    → get_elem? rows p ≡ some d
    → has d.id (ids_of rows) ≡ true
has-at p [] d h = absurd (ground arith)
has-at zero (r ∷ rows) d h = ground arith
has-at (suc p) (r ∷ rows) d h = ground (arith, has-at p rows d)

has-take :
    (m j : ℕ) (rows : List Device)
    → has j (ids_of rows) ≡ false
    → has j (ids_of (take m rows)) ≡ false
has-take zero j rows h = refl
has-take (suc m) j [] h = refl
has-take (suc m) j (r ∷ rows) h = ground (arith, has-take m j rows)

has-drop :
    (n j : ℕ) (rows : List Device)
    → has j (ids_of rows) ≡ false
    → has j (ids_of (drop n rows)) ≡ false
has-drop zero j rows h = h
has-drop (suc n) j [] h = refl
has-drop (suc n) j (r ∷ rows) h = has-drop n j rows (ground arith)

-- A part of the rows has the device at `p` exactly if `p` is in it.
has-part :
    (n p m : ℕ) (rows : List Device) (d : Device)
    → Distinct rows
    → get_elem? rows p ≡ some d
    → has d.id (ids_of (take m (drop n rows))) ≡ (leb n p && ltb p (n + m))
has-part n p m [] d u h = absurd (ground arith)
has-part zero p zero (r ∷ rows) d u h = ground arith
has-part zero zero (suc m) (r ∷ rows) d u h = ground arith
has-part zero (suc p) (suc m) (r ∷ rows) d (new, u) h =
    ground (arith, has-part zero p m rows d u, has-at p rows d)
has-part (suc n) zero m (r ∷ rows) d (new, u) h =
    let same : r ≡ d = cc (h) in
    rw (sym same) (has-take m r.id (drop n rows) (has-drop n r.id rows new) ∙ ground arith)
has-part (suc n) (suc p) m (r ∷ rows) d (new, u) h = has-part n p m rows d u h ∙ ground arith

next_row-some : (o : Option ℕ) (k : ℕ) → next_row o ≡ some k → (n : ℕ) × (o ≡ some n) × (k ≡ n + 1)
next_row-some none k h = absurd (ground arith)
next_row-some (some n) k h = (n, refl, ground arith)

-- The row of the click is the one with its id.
find_index-at :
    (id k p : ℕ) (rows : List Device) (d : Device)
    → Distinct rows
    → find_index id rows ≡ some k
    → get_elem? rows p ≡ some d
    → (id == d.id) ≡ (p == k)
unfolding find_index
find_index-at id k p [] d u f h = absurd (ground arith)
find_index-at id k zero (r ∷ rows) d (new, u) f h =
    let same : r ≡ d = cc (h) in
    elim (Bool-cases (r.id == id)) [
      | inl this ↦
          let first : some 0 ≡ some k = cc (rw (this) at f) in
          rw (sym same) (ground (arith, this, first))
      | inr other ↦
          let (n, found, e) = next_row-some (find_index id rows) k (rw (other) at f) in
          rw (sym same) (ground (arith, other, e))
    ]
find_index-at id k (suc p) (r ∷ rows) d (new, u) f h = elim (Bool-cases (r.id == id)) [
  | inl this ↦
      let first : some 0 ≡ some k = cc (rw (this) at f) in
      ground (arith, this, first, new, has-at p rows d h)
  | inr other ↦
      let (n, found, e) = next_row-some (find_index id rows) k (rw (other) at f) in
      find_index-at id n p rows d u found h ∙ ground (arith, e)
]

find_index-has :
    (id k : ℕ) (rows : List Device) → find_index id rows ≡ some k → has id (ids_of rows) ≡ true
unfolding find_index
find_index-has id k [] f = absurd (ground arith)
find_index-has id k (r ∷ rows) f = elim (Bool-cases (r.id == id)) [
  | inl this ↦ rw (this) refl
  | inr other ↦
      let (n, found, e) = next_row-some (find_index id rows) k (rw (other) at f) in
      rw (other) (find_index-has id n rows found)
]

-- What a click turns over: the row alone, or with Shift all rows from that of the last click, if it
-- is still there, to this one.
abbrev pub is_in_run : Option ℕ → ℕ → ℕ → Bool
is_in_run none k p = p == k
is_in_run (some i) k p = leb (min i k) p && leb p (max i k)

run-row :
    (id k p : ℕ) (from : Option ℕ) (rows : List Device) (d : Device)
    → Distinct rows
    → find_index id rows ≡ some k
    → get_elem? rows p ≡ some d
    → has d.id (run id from (some k) rows) ≡ is_in_run from k p
run-row id k p none rows d u f h = ground (arith, find_index-at id k p rows d u f h)
run-row id k p (some i) rows d u f h =
    has-part (min i k) p (max i k + 1 - min i k) rows d u h ∙ ground arith

run-others :
    (id k j : ℕ) (from : Option ℕ) (rows : List Device)
    → find_index id rows ≡ some k
    → has j (ids_of rows) ≡ false
    → has j (run id from (some k) rows) ≡ false
run-others id k j none rows f h = elim (Bool-cases (id == j)) [
  | inl same ↦
      let e : id ≡ j = ground arith in absurd (cc (rw (e) at (find_index-has id k rows f), h))
  | inr other ↦ rw (other) refl
]
run-others id k j (some i) rows f h =
    has-take (max i k + 1 - min i k) j (drop (min i k) rows) (has-drop (min i k) j rows h)

-- A click on a row of the page gives it, and with Shift every row between it and that of the last
-- click if this is still on the page, the state that the clicked device did not have; all other
-- rows of the page and all devices that are not on it keep their state, and the next run starts at
-- this row.
pub toggle_lem :
    (rows : List Device) (id k p j : ℕ) (s : Selection) (shift : Bool) (d : Device)
    → Distinct rows
    → find_index id rows ≡ some k
    → get_elem? rows p ≡ some d
    → has j (ids_of rows) ≡ false
    → (has d.id (toggle rows id shift s).selected ≡ (
        if is_in_run (anchor_row shift s.anchor rows) k p
        then not (has id s.selected)
        else has d.id s.selected))
      × (has j (toggle rows id shift s).selected ≡ has j s.selected)
      × ((toggle rows id shift s).anchor ≡ some id)
unfolding toggle toggled
toggle_lem rows id k p j s shift d u f h other =
    let from = anchor_row shift s.anchor rows in
    let on = not (has id s.selected) in
    (
      rw (f) (
          has-put_all on d.id (run id from (some k) rows) s.selected
          ∙ rw (run-row id k p from rows d u f h) refl),
      rw (f) (
          has-put_all on j (run id from (some k) rows) s.selected
          ∙ rw (run-others id k j from rows f other) refl),
      refl,
    )

own_ids : (rows : List Device) → All (λ (d : Device). has d.id (ids_of rows) ≡ true) rows
own_ids [] = tt
own_ids (r ∷ rows) = (
  ground arith,
  All-mono (λ (d : Device) (h : has d.id (ids_of rows) ≡ true). ground arith) rows (own_ids rows),
)

module _ (q : Device → Bool) (b : Bool) where
  all-same :
      (rows : List Device)
      → All (λ (d : Device). q d ≡ b) rows
      → (ltb 0 (length rows) && all q rows) ≡ (ltb 0 (length rows) && b)
  all-same [] h = refl
  all-same (r ∷ []) (e, h) = rw (e) (ground arith)
  all-same (r ∷ d ∷ rows) (e, h) = rw (e) (ground (arith, all-same (d ∷ rows) h))

  any-same :
      (rows : List Device)
      → All (λ (d : Device). q d ≡ b) rows
      → any q rows ≡ (ltb 0 (length rows) && b)
  any-same [] h = refl
  any-same (r ∷ rows) (e, h) = rw (e) (ground (arith, any-same rows h))

page_all_lem :
    (rows : List Device) (s : Selection)
    → page_all rows s ≡ (ltb 0 (length rows) && all (λ (d : Device). has d.id s.selected) rows)
unfolding page_all
page_all_lem rows s = refl

-- The box over a page that has rows turns over: if all of its rows were selected none of them is
-- afterwards, and else all are; what is not on the page keeps its state.
pub toggle_page_lem :
    (rows : List Device) (s : Selection) (j : ℕ)
    → 0 < length rows
    → (page_all rows (toggle_page rows s) ≡ not (page_all rows s))
      × (page_some rows (toggle_page rows s) ≡ not (page_all rows s))
      × (has j (toggle_page rows s).selected
          ≡ (if has j (ids_of rows) then not (page_all rows s) else has j s.selected))
unfolding page_some toggle_page
toggle_page_lem rows s j p =
    let on = not (page_all rows s) in
    let new = put_all on (ids_of rows) s.selected in
    let told : All (λ (d : Device). has d.id new ≡ on) rows =
      All-mono
        (λ (d : Device) (h : has d.id (ids_of rows) ≡ true).
          has-put_all on d.id (ids_of rows) s.selected ∙ rw (h) refl)
        rows (own_ids rows) in
    let full : (ltb 0 (length rows) && on) ≡ on = ground arith in
    (
      page_all_lem rows (toggle_page rows s)
          ∙ all-same (λ (d : Device). has d.id new) on rows told
          ∙ full,
      any-same (λ (d : Device). has d.id new) on rows told ∙ full,
      has-put_all on j (ids_of rows) s.selected,
    )
