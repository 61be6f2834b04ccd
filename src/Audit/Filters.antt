-- ===== src/Audit/Filters.antt =====
-- What the filters in the address mean: frontend/src/pages/audit/auditLog.ts, lines 13 to 105, and
-- frontend/src/pages/audit/AuditPage.tsx, lines 166 to 270.
use rmm_rxf_sys_de.Base.{
  ℕ, zero, suc, ◌-◌, ◌*◌, Bool, true, false, not, ◌||◌, String, Option, none, some, List, [], ◌∷◌,
  or_else, str_eq, if◌then◌else◌,
}
use rmm_rxf_sys_de.Address.{Params, get, set_param}

pub data Range : Type 0 where
  day week month alle : Range

abbrev pub default_range : Range
default_range = week

abbrev pub range_text : Range → String
range_text day = "24h"
range_text week = "7d"
range_text month = "30d"
range_text alle = "alle"

abbrev pub ranges : List Range
ranges = day ∷ week ∷ month ∷ alle ∷ []

abbrev range_among : String → List Range → Range
range_among t [] = default_range
range_among t (r ∷ rs) = if str_eq (range_text r) t then r else range_among t rs

-- `isRange(v) ? v : DEFAULT_RANGE`
unfoldable pub range_of : Option String → Range
range_of none = default_range
range_of (some t) = range_among t ranges

abbrev range_seconds : Range → Option ℕ
range_seconds day = some 86400
range_seconds week = some (7 * 86400)
range_seconds month = some (30 * 86400)
range_seconds alle = none

abbrev before : ℕ → Option ℕ → Option ℕ
before now none = none
before now (some s) = some (now - s)

-- The clock is later than thirty days after its start.
unfoldable pub since_for : Range → ℕ → Option ℕ
since_for r now = before now (range_seconds r)

pub data AuditCategory : Type 0 where
  auth account credential remote device job script patch alert person config other : AuditCategory

abbrev pub category_text : AuditCategory → String
category_text auth = "auth"
category_text account = "account"
category_text credential = "credential"
category_text remote = "remote"
category_text device = "device"
category_text job = "job"
category_text script = "script"
category_text patch = "patch"
category_text alert = "alert"
category_text person = "person"
category_text config = "config"
category_text other = "other"

-- `CATEGORY_IDS`
abbrev pub categories : List AuditCategory
categories =
    auth ∷ account ∷ credential ∷ remote ∷ device ∷ job ∷ script ∷ patch ∷ alert ∷ person ∷ config
    ∷ other ∷ []

abbrev category_among : String → List AuditCategory → Option AuditCategory
category_among t [] = none
category_among t (c ∷ cs) = if str_eq (category_text c) t then some c else category_among t cs

-- `none` where the text is missing or no category.
unfoldable pub category_of : Option String → Option AuditCategory
category_of none = none
category_of (some t) = category_among t categories

-- `category` is `none` for all, `actor` is "" for everybody.
pub record AuditFilters : Type 0 where
  pub range : Range
  pub security : Bool
  pub category : Option AuditCategory
  pub actor : String

abbrev pub is_one : Option String → Bool
is_one none = false
is_one (some t) = str_eq t "1"

unfoldable pub read_filters : Params → AuditFilters
read_filters ps =
    let security = is_one (get "security" ps) in
    record {
      range = range_of (get "range" ps);
      security = security;
      category = if security then none else category_of (get "category" ps);
      actor = or_else (get "actor" ps) "";
    }

abbrev pub search_max : ℕ
search_max = 200

-- `Array.from(s).slice(0, n).join('')`
unfoldable pub take_text : ℕ → String → String
take_text zero s = ""
take_text (suc n) String.[] = ""
take_text (suc n) (String.◌∷◌ c s) = String.◌∷◌ c (take_text n s)

-- `trim` stands for the method of texts.
unfoldable pub read_search : (trim : String → String) → Params → String
read_search trim ps = take_text search_max (trim (or_else (get "q" ps) ""))

abbrev is_some_category : Option AuditCategory → Bool
is_some_category none = false
is_some_category (some c) = true

unfoldable pub has_filters : AuditFilters → String → Bool
has_filters f search =
    f.security
    || (is_some_category f.category || (not (str_eq f.actor "") || not (str_eq search "")))

unfoldable pub is_narrowed : AuditFilters → String → Bool
unfolding has_filters
is_narrowed f search =
    has_filters f search || not (str_eq (range_text f.range) (range_text default_range))

-- What the controls of the page set.
abbrev pub range_value : Range → Option String
range_value week = none
range_value r = some (range_text r)

abbrev pub choose_range : Range → Params → Params
choose_range r = set_param (("range", range_value r) ∷ [])

abbrev pub choose_actor : String → Params → Params
choose_actor a = set_param (("actor", some a) ∷ [])

abbrev pub category_value : Option AuditCategory → Option String
category_value none = some ""
category_value (some c) = some (category_text c)

abbrev pub choose_category : Option AuditCategory → Params → Params
choose_category c = set_param (("category", category_value c) ∷ [])

abbrev pub choose_security : Bool → Params → Params
choose_security true = set_param (("security", some "1") ∷ ("category", none) ∷ [])
choose_security false = set_param (("security", none) ∷ [])

unfoldable pub reset : Params → Params
reset =
    set_param (
      ("range", none)
      ∷ ("security", none)
      ∷ ("category", none)
      ∷ ("actor", none)
      ∷ ("q", none)
      ∷ [])
