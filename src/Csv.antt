-- ===== src/Csv.antt =====
-- CSV for spreadsheets: frontend/src/csv.ts.
pub mod Reader
pub mod Cells
pub mod RoundTrip
mod Tests
use Prim.Native.Char.{Char, code}
use Prim.Native.String
use rmm_rxf_sys_de.Base.{
  Bool, false, not, ◌||◌, String, List, [], ◌∷◌, map, ◌==◌, str_eq, if◌then◌else◌,
}
use rmm_rxf_sys_de.Base.Text.{join}

-- `FORMULA_START.test(s)`
abbrev pub is_formula_char : Char → Bool
is_formula_char c =
    code c == 61
    || (code c == 43 || (code c == 45 || (code c == 64 || (code c == 9 || code c == 13))))

unfoldable pub starts_formula : String → Bool
starts_formula String.[] = false
starts_formula (String.◌∷◌ c s) = is_formula_char c

-- `null`, a number as the browser writes it, or a text.
pub data CsvValue : Type 0 where
  null : CsvValue
  written : String → CsvValue

-- A character that ends a cell: `"`, `;`, a line feed or a carriage return.
abbrev pub is_special_char : Char → Bool
is_special_char c = code c == 34 || (code c == 59 || (code c == 10 || code c == 13))

-- `/[";\n\r]/.test(s)`
unfoldable pub has_special : String → Bool
has_special String.[] = false
has_special (String.◌∷◌ c s) = is_special_char c || has_special s

-- `s.replace(/"/g, '""')`
unfoldable pub doubled : String → String
doubled String.[] = ""
doubled (String.◌∷◌ c s) =
    let rest = doubled s in
    if code c == 34 then String.◌∷◌ c (String.◌∷◌ c rest) else String.◌∷◌ c rest

-- The text of a cell, with an apostrophe in front of what a spreadsheet would run.
unfoldable pub guarded : CsvValue → String
guarded null = ""
guarded (written s) = if starts_formula s then String.◌++◌ "'" s else s

-- `trim` stands for the method of texts.
module _ (trim : String → String) where
  unfoldable pub quoted_if : String → String
  quoted_if s =
      if has_special s || not (str_eq s (trim s))
      then String.◌++◌ "\"" (String.◌++◌ (doubled s) "\"")
      else s

  abbrev pub csv_cell : CsvValue → String
  csv_cell null = ""
  csv_cell (written s) = quoted_if (guarded (written s))

  abbrev pub csv_line : List CsvValue → String
  csv_line row = join ";" (map csv_cell row)

  -- The byte-order mark is U+FEFF.
  unfoldable pub to_csv_document : List String → List (List CsvValue) → String
  to_csv_document header rows =
      String.◌++◌ "\u{feff}"
        (String.◌++◌ (join "\r\n" (map csv_line (map written header ∷ rows))) "\r\n")
