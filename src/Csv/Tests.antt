-- ===== src/Csv/Tests.antt =====
-- A file with one row: frontend/src/csv.ts.
use rmm_rxf_sys_de.Base.{◌≡◌, false, String, List, [], ◌∷◌, map}
use rmm_rxf_sys_de.Csv.{CsvValue, null, written, starts_formula, guarded, to_csv_document}
use rmm_rxf_sys_de.Csv.Reader.{read_csv}
use rmm_rxf_sys_de.Csv.RoundTrip.{read_csv-to_csv_document}

abbrev untrimmed : String → String
untrimmed t = t

abbrev row : List CsvValue
row = written "a;\"b\"" ∷ null ∷ written "=1+1" ∷ []

read_csv_example :
    (read_csv (to_csv_document untrimmed ("Name" ∷ []) (row ∷ []))
      ≡ map (map guarded) (map written ("Name" ∷ []) ∷ row ∷ []))
    × ((v : CsvValue) → starts_formula (guarded v) ≡ false)
read_csv_example = read_csv-to_csv_document untrimmed "Name" [] (row ∷ []) (tt, tt)
