-- ===== src/Palette/Score.antt =====
-- The score of a query: frontend/src/shell/palette/ranking.ts, lines 68 to 142.
use Prim.Native.Char.{Char}
use rmm_rxf_sys_de.Base.{
  ℕ, ◌+◌, ◌*◌, Bool, String, Option, none, some, List, [], ◌∷◌, ◌++◌, map, max, min, ltb, length,
  str_eq, ◌==◌, if◌then◌else◌,
}
use rmm_rxf_sys_de.Base.Search.{starts_with}
use rmm_rxf_sys_de.Base.Text.{decimal, parts}
use rmm_rxf_sys_de.Fleet.Types.{Device}
use rmm_rxf_sys_de.Palette.Tier.{Field, match_tier, term_score}
use rmm_rxf_sys_de.Palette.Label.{duplicate_hostnames, has}

-- What the browser does with texts: `normalize` of the palette (lower case without diacritics),
-- `trim`, `toLowerCase`, the split at blanks, and the test for a letter or a number.
pub record Texts : Type 0 where
  pub normalize : String → String
  pub trim : String → String
  pub lower : String → String
  pub words : String → List String
  pub is_word : Char → Bool

-- The score of the weakest word, `none` as soon as a word scores nothing. The first argument is the
-- weakest so far, `none` for infinity.
unfoldable pub weakest : (String → ℕ) → Option ℕ → List String → Option ℕ
weakest score so_far [] = so_far
weakest score none (t ∷ ts) =
    let rest = weakest score (some (score t)) ts in if score t == 0 then none else rest
weakest score (some w) (t ∷ ts) =
    let rest = weakest score (some (min w (score t))) ts in if score t == 0 then none else rest

abbrev whole_or : ℕ → Option ℕ → ℕ
whole_or whole none = whole
whole_or whole (some w) = max whole w

unfoldable pub score_query : Texts → String → (String → ℕ) → ℕ
score_query texts query score =
    let q = texts.trim (texts.normalize query) in
    let terms = texts.words q in
    if str_eq q ""
    then 0
    else (if ltb (length terms) 2 then score q else whole_or (score q) (weakest score none terms))

pub record DeviceEntry : Type 0 where
  pub device : Device
  pub show_id : Bool
  pub fields : List Field
  pub id_text : String

abbrev w_host : ℕ
w_host = 4

abbrev w_tag : ℕ
w_tag = 3

abbrev w_owner : ℕ
w_owner = 2

abbrev w_os : ℕ
w_os = 1

-- `OS_LABEL[os] ?? os`
abbrev pub os_label : String → String
os_label os =
    if str_eq os "windows"
    then "Windows"
    else (if str_eq os "linux"
        then "Linux"
        else (if str_eq os "darwin"
            then "macOS"
            else (if str_eq os "ios"
                then "iOS"
                else (if str_eq os "ipados"
                    then "iPadOS"
                    else (if str_eq os "android"
                        then "Android"
                        else (if str_eq os "other" then "Sonstiges" else os))))))

abbrev field_of : Texts → ℕ → String → Field
field_of texts weight t = record { text = texts.normalize t; weight = weight }

abbrev pub fields_of : Texts → Device → List Field
fields_of texts d =
    field_of texts w_host d.hostname
    ∷ (map (field_of texts w_tag) d.tags
        ++ field_of texts w_owner d.owner_label ∷ field_of texts w_os (os_label d.os) ∷ [])

unfoldable pub index_devices : Texts → List Device → List DeviceEntry
index_devices texts ds =
    let dup = duplicate_hostnames texts.lower ds in
    map
      (λ (d : Device). record {
        device = d;
        show_id = has dup (texts.lower d.hostname);
        fields = fields_of texts d;
        id_text = parts ("#" ∷ decimal d.id ∷ []);
      })
      ds

unfoldable pub entry_score : Texts → DeviceEntry → String → ℕ
entry_score texts e term =
    let by_id = if starts_with term "#" then match_tier texts.is_word e.id_text term else 0 in
    max (term_score texts.is_word e.fields term) (if ltb 0 by_id then by_id * 10 + w_host else 0)

-- The loop over the tags, with the best so far.
unfoldable pub best_tag : Texts → String → Option (String × ℕ) → List String → Option (String × ℕ)
best_tag texts query best [] = best
best_tag texts query none (tag ∷ tags) =
    let s = score_query texts query (match_tier texts.is_word (texts.normalize tag)) in
    best_tag texts query (if ltb 0 s then some (tag, s) else none) tags
best_tag texts query (some (best, score)) (tag ∷ tags) =
    let s = score_query texts query (match_tier texts.is_word (texts.normalize tag)) in
    best_tag texts query (some (if ltb score s then (tag, s) else (best, score))) tags

abbrev tag_of : Option (String × ℕ) → Option String
tag_of none = none
tag_of (some (tag, s)) = some tag

abbrev explained : Texts → String → List String → List Field → Option String
explained texts query tags [] = none
explained texts query tags (host ∷ fields) =
    let best = tag_of (best_tag texts query none tags) in
    if ltb 0 (score_query texts query (match_tier texts.is_word host.text)) then none else best

unfoldable pub explaining_tag : Texts → DeviceEntry → String → Option String
explaining_tag texts e query = explained texts query e.device.tags e.fields
