-- ===== src/Api/Issue.antt =====
-- The violations that the server lists for a rejected request: frontend/src/api/client.ts, lines 120
-- to 230.
use Prim.Native.Char.{code}
use mathlib.Core.Option.{map}
use rmm_rxf_sys_de.Base.{
  ℕ, ◌-◌, Bool, false, not, String, Option, none, some, List, [], ◌∷◌, any, filter, length, take,
  ltb, ◌==◌, or_else, str_eq, if◌then◌else◌,
}
use rmm_rxf_sys_de.Base.Text.{decimal, parts, join}
use rmm_rxf_sys_de.Api.Json.{Json, null, num, str, arr, Items, no_items, item, field}

-- `FIELD_LABEL`
abbrev field_labels : List (String × String)
field_labels =
    ("name", "Name")
    ∷ ("username", "Benutzername")
    ∷ ("password", "Passwort")
    ∷ ("email", "E-Mail")
    ∷ ("phone", "Telefon")
    ∷ ("notes", "Notizen")
    ∷ ("label", "Bezeichnung")
    ∷ ("hostname", "Gerätename")
    ∷ ("owner_label", "Besitzer")
    ∷ ("os_version", "Betriebssystem-Version")
    ∷ ("model", "Modell")
    ∷ ("serial", "Seriennummer")
    ∷ ("imei", "IMEI")
    ∷ ("tags", "Tags")
    ∷ ("tag", "Tag")
    ∷ ("rustdesk_id", "RustDesk-ID")
    ∷ ("command", "Befehl")
    ∷ ("content", "Inhalt")
    ∷ ("shell", "Shell")
    ∷ ("role", "Rolle")
    ∷ ("code", "Code")
    ∷ ("totp_code", "Code")
    ∷ ("ttl_hours", "Gültigkeit")
    ∷ ("minutes", "Minuten")
    ∷ ("hour", "Stunde")
    ∷ ("weekday", "Wochentag")
    ∷ ("threshold", "Schwelle")
    ∷ ("scope_kind", "Geltungsbereich")
    ∷ ("scope_value", "Geltungsbereich")
    ∷ ("base", "Server-Adresse")
    ∷ ("topic", "Thema")
    ∷ ("q", "Suchbegriff")
    ∷ []

-- `FIELD_LABEL[key]`, for the keys of the table; a name that every object has, such as
-- `constructor`, is looked up like any other text here.
unfoldable pub label_of : String → List (String × String) → Option String
label_of key [] = none
label_of key ((k, label) ∷ table) =
    let rest = label_of key table in if str_eq k key then some label else rest

abbrev pub max_issues : ℕ
max_issues = 3

-- `text.slice(prefix.length)` if the text starts with the prefix.
unfoldable pub after_prefix : String → String → Option String
after_prefix String.[] text = some text
after_prefix (String.◌∷◌ c prefix) String.[] = none
after_prefix (String.◌∷◌ c prefix) (String.◌∷◌ d text) =
    let rest = after_prefix prefix text in if code c == code d then rest else none

-- `msg.replace(/^(Value error|Assertion failed), /, '')`
unfoldable pub without_prefix : String → String
unfolding after_prefix
without_prefix msg =
    or_else (after_prefix "Value error, " msg) (or_else (after_prefix "Assertion failed, " msg) msg)

-- `[...new Set(xs)]`: each text once, where it stood first.
unfoldable pub distinct : List String → List String
distinct [] = []
distinct (t ∷ ts) = t ∷ filter (λ u. not (str_eq u t)) (distinct ts)

abbrev one_of : String → List String → Bool
one_of t names = any (str_eq t) names

abbrev pub invalid : String → String
invalid f = parts (f ∷ " ist ungültig" ∷ [])

abbrev worded : String → String → String
worded msg f = if str_eq msg "" then invalid f else parts (f ∷ ": " ∷ msg ∷ [])

abbrev pub rest_text : ℕ → String
rest_text rest =
    if ltb 0 rest
    then parts
        (" und " ∷ decimal rest ∷ " weitere " ∷ (if rest == 1 then "Angabe" else "Angaben") ∷ [])
    else ""

abbrev own_words : String → String → String
own_words msg f = if str_eq msg "" then invalid f else msg

-- `switch (type)`: the clause of the first case that has the type.
abbrev pub switch : String → List (List String × Option String) → Option String → Option String
switch type [] otherwise = otherwise
switch type ((names, clause) ∷ cases) otherwise =
    let rest = switch type cases otherwise in if one_of type names then clause else rest

-- The template text around a number, which throws where the number throws.
abbrev pub bounded : String → Option String → String → Option String
bounded before none after = none
bounded before (some t) after = some (parts (before ∷ t ∷ after ∷ []))

abbrev pub with_issue : Option String → Option (List String) → Option (List String)
with_issue (some t) (some ts) = some (t ∷ ts)
with_issue none ts = none
with_issue (some t) none = none

abbrev pub issues_text : List String → String
issues_text said =
    let issues = distinct said in
    let named = join "; " (take max_issues issues) in
    let rest = length issues - max_issues in
    if length issues == 0
    then "Ungültige Eingabe."
    else parts ("Ungültige Eingabe: " ∷ named ∷ rest_text rest ∷ "." ∷ [])

abbrev pub ctx_of : {N : Type 0} → Json N → Json N
ctx_of raw = or_else (field "ctx" raw) null

-- How the browser writes a number: `plain` in a text, `local` for German readers; `other` is
-- `String(v)` of any other value, `none` where that throws: on an object with a `toString` of its own
-- that is no function.
module _ {N : Type 0} (plain local : N → String) (is_one : N → Bool)
    (other : Json N → Option String) where
  -- `typeof v === 'string' ? v : ''`
  abbrev pub text_of : Option (Json N) → String
  text_of (some (str s)) = s
  text_of _ = ""

  -- `ctxNumber(v)`
  abbrev pub ctx_number : Option (Json N) → Option String
  ctx_number none = some ""
  ctx_number (some (num n)) = some (local n)
  ctx_number (some null) = some ""
  ctx_number (some (str s)) = some s
  ctx_number (some v) = other v

  abbrev pub is_one_number : Option (Json N) → Bool
  is_one_number (some (num n)) = is_one n
  is_one_number _ = false

  -- The texts and numbers of a location.
  abbrev path_of : Items N → List String
  path_of no_items = []
  path_of (item (str s) vs) = s ∷ path_of vs
  path_of (item (num n) vs) = plain n ∷ path_of vs
  path_of (item _ vs) = path_of vs

  abbrev behind_first : Items N → Items N
  behind_first no_items = no_items
  behind_first (item v vs) = vs

  abbrev path : Option (Json N) → List String
  path (some (arr vs)) = path_of (behind_first vs)
  path _ = []

  -- How the form names the field of a violation.
  unfoldable pub field_name : Json N → String
  field_name raw =
      let key = join "." (path (field "loc" raw)) in
      if str_eq key ""
      then "Die Anfrage"
      else or_else (label_of key field_labels) (parts ("„" ∷ key ∷ "“" ∷ []))

  abbrev pub too_short : String → Json N → Option String
  too_short f raw =
      let least = ctx_number (field "min_length" (ctx_of raw)) in
      if is_one_number (field "min_length" (ctx_of raw))
      then some (parts (f ∷ " darf nicht leer sein" ∷ []))
      else bounded (parts (f ∷ " ist zu kurz (mindestens " ∷ [])) least " Zeichen)"

  -- The clauses on one violation, on the field named `f`, with the types that they are for.
  unfoldable pub clauses : String → Json N → List (List String × Option String)
  unfolding without_prefix
  clauses f raw =
      ("missing" ∷ [], some (parts (f ∷ " fehlt" ∷ [])))
      ∷ ("string_too_short" ∷ [], too_short f raw)
      ∷ (
        "string_too_long" ∷ [],
        bounded (parts (f ∷ " ist zu lang (höchstens " ∷ []))
            (ctx_number (field "max_length" (ctx_of raw))) " Zeichen)",
      )
      ∷ ("too_short" ∷ [], some (parts (f ∷ " hat zu wenige Einträge" ∷ [])))
      ∷ ("too_long" ∷ [], some (parts (f ∷ " hat zu viele Einträge" ∷ [])))
      ∷ ("string_pattern_mismatch" ∷ [], some (parts (f ∷ " hat ein ungültiges Format" ∷ [])))
      ∷ (
        "greater_than_equal" ∷ [],
        bounded (parts (f ∷ " muss mindestens " ∷ [])) (ctx_number (field "ge" (ctx_of raw)))
            " sein",
      )
      ∷ (
        "less_than_equal" ∷ [],
        bounded (parts (f ∷ " darf höchstens " ∷ [])) (ctx_number (field "le" (ctx_of raw)))
            " sein",
      )
      ∷ (
        "greater_than" ∷ [],
        bounded (parts (f ∷ " muss größer als " ∷ [])) (ctx_number (field "gt" (ctx_of raw)))
            " sein",
      )
      ∷ (
        "less_than" ∷ [],
        bounded (parts (f ∷ " muss kleiner als " ∷ [])) (ctx_number (field "lt" (ctx_of raw)))
            " sein",
      )
      ∷ (
        "int_parsing" ∷ "int_type" ∷ "int_from_float" ∷ [],
        some (parts (f ∷ " muss eine ganze Zahl sein" ∷ [])),
      )
      ∷ ("float_parsing" ∷ "float_type" ∷ [], some (parts (f ∷ " muss eine Zahl sein" ∷ [])))
      ∷ ("bool_parsing" ∷ "bool_type" ∷ [], some (parts (f ∷ " muss ja oder nein sein" ∷ [])))
      ∷ ("string_type" ∷ [], some (parts (f ∷ " muss Text sein" ∷ [])))
      ∷ ("literal_error" ∷ "enum" ∷ [], some (parts (f ∷ " hat keinen erlaubten Wert" ∷ [])))
      ∷ (
        "value_error" ∷ "assertion_error" ∷ [],
        some (worded (without_prefix (text_of (field "msg" raw))) f),
      )
      ∷ ("rustdesk_id" ∷ [], some (own_words (text_of (field "msg" raw)) f))
      ∷ []

  abbrev pub clause : String → String → Json N → Option String
  clause type f raw = switch type (clauses f raw) (some (invalid f))

  unfoldable pub validation_issue : Json N → Option String
  validation_issue raw =
      let type = text_of (field "type" raw) in
      if str_eq type "json_invalid"
      then some "Die Anfrage ist kein gültiges JSON"
      else clause type (field_name raw) raw

  abbrev pub issues_of : Items N → Option (List String)
  issues_of no_items = some []
  issues_of (item v vs) = with_issue (validation_issue v) (issues_of vs)

  unfoldable pub validation_message : Items N → Option String
  validation_message detail = map issues_text (issues_of detail)
