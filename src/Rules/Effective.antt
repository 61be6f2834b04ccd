-- ===== src/Rules/Effective.antt =====
-- Which rule applies to a device: frontend/src/ruleText.ts, lines 104 to 133.
use rmm_rxf_sys_de.Base.{
  inl, inr, Bool-cases, ◌≡◌, refl, ◌∙◌, Bool, true, false, ◌&&◌, Option, none, some, List, [], ◌∷◌,
  filter, find, arith, get_elem?, if◌then◌else◌, str_eq,
}
use rmm_rxf_sys_de.Base.Sort.{sort, insert}
use rmm_rxf_sys_de.Fleet.Types.{Device}
use rmm_rxf_sys_de.Rules.{
  AlertRule, RuleType, ScopeKind, every, tag, person, type_text, in_scope, affected_devices,
  is_candidate, more_specific, effective_rule,
}

abbrev first : List AlertRule → Option AlertRule
first rules = get_elem? rules 0

abbrev is_scope : ScopeKind → AlertRule → Bool
is_scope person r = elim (r.scope_kind) [ person ↦ true | _ ↦ false ]
is_scope tag r = elim (r.scope_kind) [ tag ↦ true | _ ↦ false ]
is_scope every r = elim (r.scope_kind) [ every ↦ true | _ ↦ false ]

abbrev or_next : Option AlertRule → Option AlertRule → Option AlertRule
or_next none b = b
or_next (some a) b = some a

-- The first rule for the person, else the first for a tag, else the first for all.
abbrev pub best : (AlertRule → Bool) → List AlertRule → Option AlertRule
best p rules =
    or_next (find (λ r. p r && is_scope person r) rules) (
      or_next (find (λ r. p r && is_scope tag r) rules) (find (λ r. p r && is_scope every r) rules))

-- Of a type, and with a scope that takes in the device.
abbrev pub applies : Device → RuleType → AlertRule → Bool
applies d type r =
    str_eq (type_text r.type) (type_text type) && in_scope r.scope_kind r.scope_value d

is_candidate-eq :
    (d : Device) (type : RuleType) (r : AlertRule) → is_candidate d type r ≡ applies d type r
unfolding affected_devices
is_candidate-eq d type r = ground arith

stronger : AlertRule → Option AlertRule → AlertRule
stronger x none = x
stronger x (some y) = elim (more_specific x y) [ Prim.Native.Nat.Ordering.gt ↦ y | _ ↦ x ]

first-insert :
    (x : AlertRule) (rules : List AlertRule)
    → first (insert more_specific x rules) ≡ some (stronger x (first rules))
unfolding insert stronger
first-insert x [] = refl
first-insert x (y ∷ rules) = ground arith

abbrev Scoped : ScopeKind → Option AlertRule → Type 0
Scoped k none = Unit
Scoped k (some r) = is_scope k r ≡ true

find-Scoped :
    (p : AlertRule → Bool) (k : ScopeKind) (rules : List AlertRule)
    → Scoped k (find (λ r. p r && is_scope k r) rules)
find-Scoped p k [] = tt
find-Scoped p k (x ∷ rules) = elim (Bool-cases (p x && is_scope k x)) [
  | inl found ↦ rw (found) (ground (arith, found))
  | inr other ↦ rw (other) (find-Scoped p k rules)
]

-- One more candidate in front of the best of each scope.
stronger-next :
    (x : AlertRule) (a b c : Option AlertRule)
    → Scoped person a
    → Scoped tag b
    → Scoped every c
    → or_next
        (if is_scope person x then some x else a)
        (or_next (if is_scope tag x then some x else b) (if is_scope every x then some x else c))
      ≡ some (stronger x (or_next a (or_next b c)))
unfolding stronger
stronger-next x none none none h k l = ground arith
stronger-next x none none (some r) h k l = ground arith
stronger-next x none (some r) c h k l = ground arith
stronger-next x (some r) b c h k l = ground arith

best-cons :
    (p : AlertRule → Bool) (x : AlertRule) (rules : List AlertRule)
    → p x ≡ true
    → best p (x ∷ rules) ≡ some (stronger x (best p rules))
best-cons p x rules h = rw (h) (
    stronger-next x (find (λ r. p r && is_scope person r) rules)
      (find (λ r. p r && is_scope tag r) rules) (find (λ r. p r && is_scope every r) rules)
      (find-Scoped p person rules) (find-Scoped p tag rules) (find-Scoped p every rules))

first-sort :
    (p : AlertRule → Bool) (rules : List AlertRule)
    → first (sort more_specific (filter p rules)) ≡ best p rules
unfolding sort
first-sort p [] = refl
first-sort p (x ∷ rules) = ground (
  arith,
  first-sort p rules,
  best-cons p x rules,
  first-insert x (sort more_specific (filter p rules)),
)

best-same :
    (p q : AlertRule → Bool) (rules : List AlertRule)
    → ((r : AlertRule) → p r ≡ q r)
    → (k : ScopeKind)
    → find (λ r. p r && is_scope k r) rules ≡ find (λ r. q r && is_scope k r) rules
best-same p q [] h k = refl
best-same p q (r ∷ rules) h k = rw (h r, best-same p q rules h k)

-- The rule that applies to a device is, among those of the type whose scope takes it in, the first
-- for a person, without one the first for a tag, and without one the first for all devices. A
-- device that is not known has none.
pub effective_rule_lem :
    (rules : List AlertRule) (type : RuleType)
    → (effective_rule rules none type ≡ none)
      × ((d : Device) → effective_rule rules (some d) type ≡ best (applies d type) rules)
unfolding effective_rule
effective_rule_lem rules type = (
  refl,
  λ d.
      let same = best-same (is_candidate d type) (applies d type) rules (is_candidate-eq d type) in
      first-sort (is_candidate d type) rules ∙ rw (same person, same tag, same every),
)
