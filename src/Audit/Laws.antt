-- ===== src/Audit/Laws.antt =====
-- What is chosen on the page is what the address asks for: frontend/src/pages/audit/auditLog.ts,
-- lines 63 to 105.
use rmm_rxf_sys_de.Base.{
  ◌≡◌, refl, sym, inl, inr, Bool, true, false, ◌&&◌, String, Option, none, some, or_else, is_some,
  str_eq, eq_iff, Bool-cases, arith,
}
use rmm_rxf_sys_de.Address.{Params, set_param, kept, get-set_one}
use rmm_rxf_sys_de.Audit.Filters.{
  Range, day, week, month, alle, range_of, range_value, AuditCategory, auth, account, credential,
  remote, device, job, script, patch, alert, person, config, other, category_of, category_value,
  AuditFilters, read_filters, read_search, take_text, has_filters, is_narrowed, choose_range,
  choose_actor, choose_category, choose_security, reset,
}

range_of-value : (r : Range) → range_of (kept (range_value r)) ≡ r
unfolding range_of
range_of-value day = refl
range_of-value week = refl
range_of-value month = refl
range_of-value alle = refl

category_of-value : (c : Option AuditCategory) → category_of (kept (category_value c)) ≡ c
unfolding category_of
category_of-value none = refl
category_of-value (some auth) = refl
category_of-value (some account) = refl
category_of-value (some credential) = refl
category_of-value (some remote) = refl
category_of-value (some device) = refl
category_of-value (some job) = refl
category_of-value (some script) = refl
category_of-value (some patch) = refl
category_of-value (some alert) = refl
category_of-value (some person) = refl
category_of-value (some config) = refl
category_of-value (some other) = refl

actor-kept : (a : String) → or_else (kept (some a)) "" ≡ a
actor-kept a = elim (Bool-cases (str_eq a "")) [
  | inl empty ↦ rw (empty) (sym ((eq_iff a "").0 empty))
  | inr full ↦ rw (full) refl
]

-- All four controls, one after the other.
abbrev pub choose : AuditFilters → Params → Params
choose f ps =
    choose_security f.security
      (choose_category f.category (choose_actor f.actor (choose_range f.range ps)))

-- "Nur Sicherheit" goes with no category.
abbrev pub IsChoice : AuditFilters → Type 0
IsChoice f = (f.security && is_some f.category) ≡ false

module _ (r : Range) (c : Option AuditCategory) (a : String) (ps : Params) where
  read-safe :
      read_filters (choose (record { range = r; security = false; category = c; actor = a }) ps)
      ≡ record { range = r; security = false; category = c; actor = a }
  unfolding read_filters set_param
  read-safe = simp (get-set_one, range_of-value, category_of-value, actor-kept)

  read-secure :
      read_filters (choose (record { range = r; security = true; category = none; actor = a }) ps)
      ≡ record { range = r; security = true; category = none; actor = a }
  unfolding read_filters set_param
  read-secure = simp (get-set_one, range_of-value, actor-kept)

-- Whatever the address was, after the controls have been set to a choice the page filters by exactly
-- that choice, where "Nur Sicherheit" is not set together with a category.
pub read_filters-chosen :
    (f : AuditFilters) (ps : Params) → IsChoice f → read_filters (choose f ps) ≡ f
read_filters-chosen f ps h = by_security f.security f.category h
  where
    by_security :
        (s : Bool) (c : Option AuditCategory)
        → (s && is_some c) ≡ false
        → read_filters
            (choose (record { range = f.range; security = s; category = c; actor = f.actor }) ps)
          ≡ record { range = f.range; security = s; category = c; actor = f.actor }
    by_security false c h = read-safe f.range c f.actor ps
    by_security true none h = read-secure f.range none f.actor ps
    by_security true (some c) h = absurd (ground arith)

-- After "Filter zurücksetzen" nothing is filtered, whatever the address was.
pub is_narrowed-reset :
    (trim : String → String) (ps : Params)
    → trim "" ≡ ""
    → is_narrowed (read_filters (reset ps)) (read_search trim (reset ps)) ≡ false
unfolding is_narrowed has_filters read_filters read_search reset set_param category_of take_text
    range_of
is_narrowed-reset trim ps h = simp (get-set_one, h)
