-- ===== src/Address.antt =====
-- The query of the address, where the pages keep their filters: `setParam` of
-- frontend/src/pages/devices/DevicesPage.tsx, which alerts/AlertsPage.tsx, audit/AuditPage.tsx and
-- patches/PatchesPage.tsx beside it repeat. `URLSearchParams` is a list of pairs: `get` reads the
-- first value of a key, and `set` puts the value in its place, takes the others away, or appends.
mod Tests
use Prim.Native.String
use rmm_rxf_sys_de.Base.{
  ℕ, ◌<◌, ◌≡◌, refl, ap, ◌∙◌, String, Option, none, some, List, [], ◌∷◌, Bool-cases, inl, inr,
  str_eq, eq_iff, if◌then◌else◌, arith,
}
use rmm_rxf_sys_de.Base.Text.{decimal}
use rmm_rxf_sys_de.Base.Digits.{positive_number, positive_number-decimal}

abbrev pub Params : Type 0
Params = List (String × String)

-- `params.get(k)`
unfoldable pub get : String → Params → Option String
get k [] = none
get k ((j, v) ∷ ps) = let rest = get k ps in if str_eq j k then some v else rest

-- `params.delete(k)`
unfoldable pub delete : String → Params → Params
delete k [] = []
delete k ((j, v) ∷ ps) = let rest = delete k ps in if str_eq j k then rest else (j, v) ∷ rest

-- `params.set(k, v)`
unfoldable pub set : String → String → Params → Params
unfolding delete
set k v [] = (k, v) ∷ []
set k v ((j, w) ∷ ps) =
    let rest = set k v ps in if str_eq j k then (k, v) ∷ delete k ps else (j, w) ∷ rest

-- One key of a patch; the empty text and `null` take the key away.
unfoldable pub set_one : String → Option String → Params → Params
set_one k none ps = delete k ps
set_one k (some v) ps = if str_eq v "" then delete k ps else set k v ps

unfoldable pub set_param : List (String × Option String) → Params → Params
unfolding set_one
set_param [] ps = ps
set_param ((k, v) ∷ patch) ps = set_param patch (set_one k v ps)

empty_is_none : positive_number "" ≡ none
unfolding positive_number
empty_is_none = refl

abbrev id_of : Option String → Option ℕ
id_of none = none
id_of (some v) = positive_number v

-- The person that the address asks for.
unfoldable pub person_filter : Params → Option ℕ
person_filter ps = id_of (get "person" ps)

get-delete :
    (k j : String) (ps : Params) → get j (delete k ps) ≡ (if str_eq k j then none else get j ps)
unfolding get delete
get-delete k j [] = ground arith
get-delete k j ((i, w) ∷ ps) = ground (arith, eq_iff k j, eq_iff i k, eq_iff i j, get-delete k j ps)

get-set :
    (k j v : String) (ps : Params) → get j (set k v ps) ≡ (if str_eq k j then some v else get j ps)
unfolding get set
get-set k j v [] = refl
get-set k j v ((i, w) ∷ ps) =
    ground (arith, eq_iff k j, eq_iff i k, eq_iff i j, get-set k j v ps, get-delete k j ps)

abbrev pub kept : Option String → Option String
kept none = none
kept (some v) = if str_eq v "" then none else some v

pub get-set_one :
    (k j : String) (v : Option String) (ps : Params)
    → get j (set_one k v ps) ≡ (if str_eq k j then kept v else get j ps)
unfolding set_one
get-set_one k j none ps = get-delete k j ps
get-set_one k j (some v) ps = ground (arith, get-delete k j ps, get-set k j v ps)

-- A person who was chosen from the list is the one that the address asks for.
pub person_filter-chosen :
    (id : ℕ) (ps : Params)
    → 0 < id
    → person_filter (set_param (("person", some (decimal id)) ∷ []) ps) ≡ some id
unfolding person_filter set_param
person_filter-chosen id ps p = elim (Bool-cases (str_eq (decimal id) "")) [
  | inl empty ↦ absurd (no_number ((eq_iff (decimal id) "").0 empty))
  | inr full ↦
      ap id_of (get-set_one "person" "person" (some (decimal id)) ps)
      ∙ rw (full) (positive_number-decimal id p)
]
  where
    no_number : decimal id ≡ "" → ⊥
    no_number e = cc (rw (e) at (positive_number-decimal id p), empty_is_none)
