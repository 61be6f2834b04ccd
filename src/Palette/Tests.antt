-- ===== src/Palette/Tests.antt =====
-- The palette at a small fleet: frontend/src/shell/palette and frontend/src/deviceLabel.ts.
use Prim.Native.Char.{Char, code}
use rmm_rxf_sys_de.Base.{
  ℕ, ◌<◌, ◌≡◌, ◌↔◌, refl, Bool, not, String, Option, none, some, List, [], ◌∷◌, All, ◌==◌, str_eq,
  if◌then◌else◌,
}
use rmm_rxf_sys_de.Fleet.Samples.{by_size, device, fleet}
use rmm_rxf_sys_de.Palette.Label.{device_label}
use rmm_rxf_sys_de.Palette.Tier.{Field, match_tier}
use rmm_rxf_sys_de.Palette.Tier.Laws.{Occurs, match_tier-Occurs}
use rmm_rxf_sys_de.Palette.Score.{Texts, index_devices}
use rmm_rxf_sys_de.Fleet.People.{viewer}
use rmm_rxf_sys_de.Palette.Build.{build_palette}
use rmm_rxf_sys_de.Palette.Build.Allowed.{GroupIsAllowed, build_palette-IsAllowed}
use rmm_rxf_sys_de.Palette.Recent.{Item, whole}

abbrev is_word : Char → Bool
is_word c = not (code c == 45)

abbrev same : String → String
same t = t

abbrev texts : Texts
texts = record {
  normalize = same;
  trim = same;
  lower = same;
  words = λ t. t ∷ [];
  is_word = is_word;
}

match_tier_example : (0 < match_tier is_word "buero-pc" "pc") ↔ Occurs "buero-pc" "pc"
match_tier_example = match_tier-Occurs is_word "buero-pc" "pc" refl

abbrev fields : List Field
fields = record { text = "buero-pc"; weight = 4 } ∷ record { text = "pc"; weight = 3 } ∷ []

-- A device that is called like the label of another: both choices read "nas (#3)".
label_twice :
    device_label same (device 3 "nas" "linux") ("nas" ∷ [])
    ≡ device_label same (device 9 "nas (#3)" "linux") ("nas" ∷ [])
unfolding device_label rmm_rxf_sys_de.Base.Text.decimal
label_twice = refl

-- A storage that gives back the list [7] and no other.
abbrev parse : String → Option (Option (List Item))
parse t = if str_eq t "[7]" then some (some (whole 7 ∷ whole 7 ∷ [])) else none

abbrev print : List ℕ → String
print xs = "[7]"

build_palette_example :
    All
      (GroupIsAllowed viewer)
      (build_palette texts by_size "srv" (index_devices texts fleet) (1 ∷ []) viewer).groups
build_palette_example =
    build_palette-IsAllowed texts by_size "srv" (index_devices texts fleet) (1 ∷ []) viewer
