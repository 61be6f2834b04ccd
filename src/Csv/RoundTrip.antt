-- ===== src/Csv/RoundTrip.antt =====
-- What is written can be read back: frontend/src/csv.ts, lines 7 to 23.
use Prim.Native.Char.{Char}
use Prim.Native.String
use text.Mathlib.TextLemmas.{cons-append, nil-append, append_assoc, append-nil}
use rmm_rxf_sys_de.Base.{
  All, ◌≡◌, refl, sym, ap, ◌∙◌, inl, inr, Bool-cases, false, String, List, [], ◌∷◌, map,
}
use rmm_rxf_sys_de.Base.Text.{join}
use rmm_rxf_sys_de.Csv.{
  CsvValue, null, written, starts_formula, guarded, csv_cell, csv_line, to_csv_document,
}
use rmm_rxf_sys_de.Csv.Reader.{row_start, start, plain, read, read_csv, new_cell, new_row}
use rmm_rxf_sys_de.Csv.Cells.{glue, put, glue-new_cell, glue-new_row, crlf, read-csv_cell}

join-cons :
    (sep t u : String) (ts : List String)
    → join sep (t ∷ u ∷ ts) ≡ String.◌++◌ t (String.◌++◌ sep (join sep (u ∷ ts)))
join-cons sep t u ts = rw (append-nil (join sep (u ∷ ts))) refl

-- A row with at least one cell.
abbrev pub HasCells : List CsvValue → Type 0
HasCells [] = ⊥
HasCells (v ∷ vs) = Unit

after_cell : (t rest : String) → read plain (String.◌∷◌ ";" rest) ≡ new_cell (read start rest)
unfolding read
after_cell t rest = refl

after_line :
    (rest : String)
    → read plain (String.◌∷◌ "\r" (String.◌∷◌ "\n" rest)) ≡ new_row (read row_start rest)
unfolding read
after_line rest = refl

semicolon :
    (t u rest : String)
    → String.◌++◌ (String.◌++◌ t (String.◌++◌ ";" u)) rest
      ≡ String.◌++◌ t (String.◌∷◌ ";" (String.◌++◌ u rest))
semicolon t u rest =
    append_assoc t (String.◌++◌ ";" u) rest
    ∙ ap (String.◌++◌ t) (
        append_assoc ";" u rest
        ∙ cons-append ";" "" (String.◌++◌ u rest)
        ∙ ap (String.◌∷◌ ";") (nil-append (String.◌++◌ u rest)))

bom : (rest : String) → String.◌++◌ "\u{feff}" rest ≡ String.◌∷◌ "\u{feff}" rest
bom rest = cons-append "\u{feff}" "" rest ∙ ap (String.◌∷◌ "\u{feff}") (nil-append rest)

guarded-safe : (v : CsvValue) → starts_formula (guarded v) ≡ false
unfolding guarded starts_formula
guarded-safe null = refl
guarded-safe (written s) = elim (Bool-cases (starts_formula s)) [
  | inl formula ↦ rw (formula, cons-append "'" "" s) refl
  | inr clean ↦ rw (clean) clean
]

module _ (trim : String → String) where
  read-csv_line :
      (v : CsvValue) (vs : List CsvValue) (rest : String)
      → read start (String.◌++◌ (csv_line trim (v ∷ vs)) (String.◌++◌ "\r\n" rest))
        ≡ map guarded (v ∷ vs) ∷ read row_start rest
  read-csv_line v [] rest = rw (crlf rest) (
      read-csv_cell trim v (String.◌∷◌ "\r" (String.◌∷◌ "\n" rest)) (inr refl)
      ∙ ap (glue (guarded v)) (after_line rest)
      ∙ glue-new_row (guarded v) (read row_start rest))
  read-csv_line v (w ∷ vs) rest =
      let cell = csv_cell trim v in
      let others = csv_line trim (w ∷ vs) in
      let behind = String.◌++◌ "\r\n" rest in
      ap (λ t. read start (String.◌++◌ t behind))
        (join-cons ";" cell (csv_cell trim w) (map (csv_cell trim) vs))
      ∙ ap (read start) (semicolon cell others behind)
      ∙ read-csv_cell trim v (String.◌∷◌ ";" (String.◌++◌ others behind)) (inl refl)
      ∙ ap (glue (guarded v)) (after_cell cell (String.◌++◌ others behind))
      ∙ glue-new_cell (guarded v) (read start (String.◌++◌ others behind))
      ∙ ap (put (guarded v)) (read-csv_line w vs rest)

  -- Only at the end of the file do the two starts differ.
  row-start :
      (t : String) (c : Char) (rest : String)
      → read row_start (String.◌++◌ t (String.◌∷◌ c rest))
        ≡ read start (String.◌++◌ t (String.◌∷◌ c rest))
  unfolding read
  row-start String.[] c rest = rw (nil-append (String.◌∷◌ c rest)) refl
  row-start (String.◌∷◌ d t) c rest = rw (cons-append d t (String.◌∷◌ c rest)) refl

  read-row :
      (v : CsvValue) (vs : List CsvValue) (rest : String)
      → read row_start (String.◌++◌ (csv_line trim (v ∷ vs)) (String.◌++◌ "\r\n" rest))
        ≡ map guarded (v ∷ vs) ∷ read row_start rest
  read-row v vs rest =
      ap (λ t. read row_start (String.◌++◌ (csv_line trim (v ∷ vs)) t)) (crlf rest)
      ∙ row-start (csv_line trim (v ∷ vs)) "\r" (String.◌∷◌ "\n" rest)
      ∙ ap (λ t. read start (String.◌++◌ (csv_line trim (v ∷ vs)) t)) (sym (crlf rest))
      ∙ read-csv_line v vs rest

  read-rows :
      (row : List CsvValue) (rows : List (List CsvValue))
      → HasCells row
      → All HasCells rows
      → read row_start (String.◌++◌ (join "\r\n" (map (csv_line trim) (row ∷ rows))) "\r\n")
        ≡ map (map guarded) (row ∷ rows)
  unfolding read
  read-rows [] rows h k = absurd h
  read-rows (v ∷ vs) [] h k =
      ap (λ t. read row_start (String.◌++◌ (csv_line trim (v ∷ vs)) t)) (sym (append-nil "\r\n"))
      ∙ read-row v vs ""
  read-rows (v ∷ vs) (row ∷ rows) h (p, k) =
      let others = join "\r\n" (map (csv_line trim) (row ∷ rows)) in
      let line = csv_line trim (v ∷ vs) in
      ap (λ t. read row_start (String.◌++◌ t "\r\n"))
        (join-cons "\r\n" line (csv_line trim row) (map (csv_line trim) rows))
      ∙ ap (read row_start) (
          append_assoc line (String.◌++◌ "\r\n" others) "\r\n"
          ∙ ap (String.◌++◌ line) (append_assoc "\r\n" others "\r\n"))
      ∙ read-row v vs (String.◌++◌ others "\r\n")
      ∙ ap (λ r. map guarded (v ∷ vs) ∷ r) (read-rows row rows p k)

  -- Reading a written file gives every row and every cell back, whatever is in them: quotation
  -- marks, semicolons, line ends, blanks at the ends. Every row, the header too, needs a cell. Only
  -- a cell that a spreadsheet would run as a formula comes back with an apostrophe in front, and
  -- none that comes back would be run.
  pub read_csv-to_csv_document :
      (column : String) (header : List String) (rows : List (List CsvValue))
      → All HasCells rows
      → (read_csv (to_csv_document trim (column ∷ header) rows)
          ≡ map (map guarded) (map written (column ∷ header) ∷ rows))
        × ((v : CsvValue) → starts_formula (guarded v) ≡ false)
  unfolding read_csv to_csv_document
  read_csv-to_csv_document column header rows h = (
    ap read_csv (
          bom (
            String.◌++◌ (join "\r\n" (map (csv_line trim) (map written (column ∷ header) ∷ rows)))
              "\r\n"))
        ∙ read-rows (map written (column ∷ header)) rows tt h,
    guarded-safe,
  )
