-- ===== src/Csv/Cells.antt =====
-- One cell is read back as it was written: frontend/src/csv.ts, lines 7 to 18.
use Prim.Native.Char.{code}
use Prim.Native.String
use text.Mathlib.TextLemmas.{cons-append, nil-append, append_assoc}
use rmm_rxf_sys_de.Base.{
  ◌≡◌, refl, ap, ◌∙◌, ◌⊎◌, inl, inr, Bool-cases, false, not, ◌||◌, String, [], ◌∷◌, ◌==◌, str_eq,
  arith,
}
use rmm_rxf_sys_de.Csv.{CsvValue, null, written, has_special, doubled, guarded, quoted_if, csv_cell}
use rmm_rxf_sys_de.Csv.Reader.{Rows, start, plain, quoted, quote_seen, add, new_cell, new_row, read}

abbrev pub glue : String → Rows → Rows
glue String.[] rows = rows
glue (String.◌∷◌ c t) rows = add c (glue t rows)

abbrev pub put : String → Rows → Rows
put t [] = (t ∷ []) ∷ []
put t (row ∷ rows) = (t ∷ row) ∷ rows

pub glue-new_cell : (t : String) (rows : Rows) → glue t (new_cell rows) ≡ put t rows
unfolding new_cell add
glue-new_cell String.[] [] = refl
glue-new_cell String.[] (row ∷ rows) = refl
glue-new_cell (String.◌∷◌ c t) [] = rw (glue-new_cell t []) refl
glue-new_cell (String.◌∷◌ c t) (row ∷ rows) = rw (glue-new_cell t (row ∷ rows)) refl

pub glue-new_row : (t : String) (rows : Rows) → glue t (new_row rows) ≡ (t ∷ []) ∷ rows
unfolding add
glue-new_row String.[] rows = refl
glue-new_row (String.◌∷◌ c t) rows = rw (glue-new_row t rows) refl

read-plain :
    (t rest : String)
    → has_special t ≡ false
    → read plain (String.◌++◌ t rest) ≡ glue t (read plain rest)
unfolding has_special read
read-plain String.[] rest h = rw (nil-append rest) refl
read-plain (String.◌∷◌ c t) rest h = rw (cons-append c t rest) (ground (arith, read-plain t rest))

read-quoted :
    (t rest : String)
    → read quoted (String.◌++◌ (doubled t) (String.◌∷◌ "\"" rest)) ≡ glue t (read quote_seen rest)
unfolding doubled read
read-quoted String.[] rest = rw (nil-append (String.◌∷◌ "\"" rest)) refl
read-quoted (String.◌∷◌ c t) rest = elim (Bool-cases (code c == 34)) [
  | inl mark ↦
      rw
        (
          mark,
          cons-append c (String.◌∷◌ c (doubled t)) (String.◌∷◌ "\"" rest),
          cons-append c (doubled t) (String.◌∷◌ "\"" rest),
          mark,
        )
        (ap (add c) (read-quoted t rest))
  | inr other ↦
      rw (other, cons-append c (doubled t) (String.◌∷◌ "\"" rest), other)
        (ap (add c) (read-quoted t rest))
]

pub crlf : (rest : String) → String.◌++◌ "\r\n" rest ≡ String.◌∷◌ "\r" (String.◌∷◌ "\n" rest)
crlf rest =
    cons-append "\r" "\n" rest
    ∙ ap (String.◌∷◌ "\r") (cons-append "\n" "" rest ∙ ap (String.◌∷◌ "\n") (nil-append rest))

-- A text that begins with what ends a cell: a semicolon or a carriage return.
abbrev pub IsEnd : String → Type 0
IsEnd String.[] = ⊥
IsEnd (String.◌∷◌ c s) = (code c ≡ 59) ⊎ (code c ≡ 13)

read-start :
    (t rest : String)
    → IsEnd rest
    → has_special t ≡ false
    → read start (String.◌++◌ t rest) ≡ glue t (read plain rest)
unfolding has_special read
read-start String.[] String.[] e h = absurd e
read-start String.[] (String.◌∷◌ c rest) e h =
    rw (nil-append (String.◌∷◌ c rest)) (ground (arith, e))
read-start (String.◌∷◌ c t) rest e h = rw (cons-append c t rest) (ground (arith, read-plain t rest))

read-quote_seen : (rest : String) → IsEnd rest → read quote_seen rest ≡ read plain rest
unfolding read
read-quote_seen String.[] e = absurd e
read-quote_seen (String.◌∷◌ c rest) e = ground (arith, e)

quotes :
    (t rest : String)
    → String.◌++◌ (String.◌++◌ "\"" (String.◌++◌ (doubled t) "\"")) rest
      ≡ String.◌∷◌ "\"" (String.◌++◌ (doubled t) (String.◌∷◌ "\"" rest))
quotes t rest =
    append_assoc "\"" (String.◌++◌ (doubled t) "\"") rest
    ∙ cons-append "\"" "" (String.◌++◌ (String.◌++◌ (doubled t) "\"") rest)
    ∙ ap (String.◌∷◌ "\"") (
        nil-append (String.◌++◌ (String.◌++◌ (doubled t) "\"") rest)
        ∙ append_assoc (doubled t) "\"" rest
        ∙ ap (String.◌++◌ (doubled t))
            (cons-append "\"" "" rest ∙ ap (String.◌∷◌ "\"") (nil-append rest)))

read-quotes :
    (t rest : String)
    → IsEnd rest
    → read start (String.◌++◌ (String.◌++◌ "\"" (String.◌++◌ (doubled t) "\"")) rest)
      ≡ glue t (read plain rest)
unfolding read
read-quotes t rest e =
    rw (quotes t rest) (read-quoted t rest ∙ ap (glue t) (read-quote_seen rest e))

module _ (trim : String → String) where
  read-quoted_if :
      (t rest : String)
      → IsEnd rest
      → read start (String.◌++◌ (quoted_if trim t) rest) ≡ glue t (read plain rest)
  unfolding quoted_if
  read-quoted_if t rest e = elim (Bool-cases (has_special t || not (str_eq t (trim t)))) [
    | inl special ↦ rw (special) (read-quotes t rest e)
    | inr clean ↦ rw (clean) (read-start t rest e (ground (arith, clean)))
  ]

  pub read-csv_cell :
      (v : CsvValue) (rest : String)
      → IsEnd rest
      → read start (String.◌++◌ (csv_cell trim v) rest) ≡ glue (guarded v) (read plain rest)
  unfolding guarded has_special
  read-csv_cell null rest e = read-start "" rest e refl
  read-csv_cell (written s) rest e = read-quoted_if (guarded (written s)) rest e
