-- ===== src/Csv/Reader.antt =====
-- A reader of CSV files with semicolons, after RFC 4180, to compare frontend/src/csv.ts with: cells
-- end at a semicolon, rows at a line feed; a cell that begins with a quotation mark lasts until the
-- closing one, and two of them stand for one.
use Prim.Native.Char.{Char, code}
use rmm_rxf_sys_de.Base.{String, List, [], ◌∷◌, ◌==◌, if◌then◌else◌}

abbrev pub Rows : Type 0
Rows = List (List String)

-- Where the reader stands: at the start of a row or of a cell, in a plain cell, in a quoted one, or
-- behind a quotation mark in one.
pub data Mode : Type 0 where
  row_start start plain quoted quote_seen : Mode

-- A character in front of the first cell.
unfoldable pub add : Char → Rows → Rows
add c [] = (String.◌∷◌ c "" ∷ []) ∷ []
add c ([] ∷ rows) = (String.◌∷◌ c "" ∷ []) ∷ rows
add c ((t ∷ row) ∷ rows) = (String.◌∷◌ c t ∷ row) ∷ rows

-- A cell that ends before the others of its row, and a row that ends before the others.
unfoldable pub new_cell : Rows → Rows
new_cell [] = ("" ∷ []) ∷ []
new_cell (row ∷ rows) = ("" ∷ row) ∷ rows

abbrev pub new_row : Rows → Rows
new_row rows = ("" ∷ []) ∷ rows

-- A character outside quotation marks: what follows is read in a plain cell, at the start of a
-- cell, or at the start of a row. A carriage return is skipped.
abbrev pub outside : Char → Rows → Rows → Rows → Rows
outside c in_cell at_cell at_row =
    if code c == 59
    then new_cell at_cell
    else (if code c == 10
        then new_row at_row
        else (if code c == 13 then in_cell else add c in_cell))

unfoldable pub read : Mode → String → Rows
read row_start String.[] = []
read start String.[] = ("" ∷ []) ∷ []
read plain String.[] = ("" ∷ []) ∷ []
read quoted String.[] = ("" ∷ []) ∷ []
read quote_seen String.[] = ("" ∷ []) ∷ []
read row_start (String.◌∷◌ c s) =
    let inside = read quoted s in
    let other = outside c (read plain s) (read start s) (read row_start s) in
    if code c == 34 then inside else other
read start (String.◌∷◌ c s) =
    let inside = read quoted s in
    let other = outside c (read plain s) (read start s) (read row_start s) in
    if code c == 34 then inside else other
read plain (String.◌∷◌ c s) = outside c (read plain s) (read start s) (read row_start s)
read quoted (String.◌∷◌ c s) =
    let inside = read quoted s in
    let after = read quote_seen s in if code c == 34 then after else add c inside
read quote_seen (String.◌∷◌ c s) =
    let inside = read quoted s in
    let other = outside c (read plain s) (read start s) (read row_start s) in
    if code c == 34 then add c inside else other

-- A file, with its byte-order mark.
unfoldable pub read_csv : String → Rows
read_csv String.[] = []
read_csv (String.◌∷◌ c s) = read row_start s
