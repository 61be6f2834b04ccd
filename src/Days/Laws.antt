-- ===== src/Days/Laws.antt =====
-- The groups are the events, in order: frontend/src/pages/audit/auditLog.ts, lines 107 to 125, and
-- frontend/src/pages/device/timeline.ts, lines 41 to 51.
use mathlib.Core.List.{append-nil, append_assoc}
use rmm_rxf_sys_de.Base.{
  ℕ, ◌≡◌, refl, ◌∙◌, sym, Bool, true, not, ◌&&◌, String, List, [], ◌∷◌, ◌++◌, arith, length,
  length-append, ltb, all, str_eq, eq_iff,
}
use text.Mathlib.TextPositions.{eq_refl}
use rmm_rxf_sys_de.Days.{DayGroup, add_event, group_from, group_by_day}

module _ {A : Type 0} where
  -- The events of all groups, one group after the other.
  abbrev pub flat : List (DayGroup A) → List A
  flat [] = []
  flat (g ∷ out) = g.events ++ flat out

  -- No two groups that follow each other are of the same day.
  abbrev pub is_split : List (DayGroup A) → Bool
  is_split [] = true
  is_split (g ∷ []) = true
  is_split (g ∷ h ∷ out) = not (str_eq g.day h.day) && is_split (h ∷ out)

  flat-add_event :
      (day : String) (e : A) (out : List (DayGroup A))
      → flat (add_event day e out) ≡ flat out ++ e ∷ []
  unfolding add_event
  flat-add_event day e [] = refl
  flat-add_event day e (last ∷ []) =
      ground (arith, append-nil last.events, append-nil (last.events ++ e ∷ []))
  flat-add_event day e (g ∷ h ∷ out) =
      rw (flat-add_event day e (h ∷ out)) (sym (append_assoc g.events (flat (h ∷ out)) (e ∷ [])))

  is_split-add_event :
      (day : String) (e : A) (out : List (DayGroup A))
      → is_split out ≡ true
      → is_split (add_event day e out) ≡ true
  unfolding add_event
  is_split-add_event day e [] h = refl
  is_split-add_event day e (last ∷ []) h = ground arith
  is_split-add_event day e (g ∷ last ∷ []) h = ground (arith, eq_iff last.day day)
  is_split-add_event day e (g ∷ h ∷ k ∷ out) p =
      ground (arith, is_split-add_event day e (h ∷ k ∷ out))

module _ {A : Type 0} (ts : A → ℕ) (label : ℕ → String) where
  abbrev is_of : String → A → Bool
  is_of day e = str_eq (label (ts e)) day

  -- A group holds an event, and all its events are of its day.
  abbrev pub is_group : DayGroup A → Bool
  is_group g = ltb 0 (length g.events) && all (is_of g.day) g.events

  all-append_one :
      (day : String) (e : A) (events : List A)
      → all (is_of day) events ≡ true
      → is_of day e ≡ true
      → all (is_of day) (events ++ e ∷ []) ≡ true
  all-append_one day e [] h k = ground arith
  all-append_one day e (x ∷ events) h k = ground (arith, all-append_one day e events)

  groups-add_event :
      (e : A) (out : List (DayGroup A))
      → all is_group out ≡ true
      → all is_group (add_event (label (ts e)) e out) ≡ true
  unfolding add_event
  groups-add_event e [] h = ground (arith, eq_refl (label (ts e)))
  groups-add_event e (last ∷ []) h = ground (
    arith,
    eq_refl (label (ts e)),
    eq_iff last.day (label (ts e)),
    length-append last.events (e ∷ []),
    all-append_one last.day e last.events,
  )
  groups-add_event e (g ∷ h ∷ out) k = ground (arith, groups-add_event e (h ∷ out))

  group_from_lem :
      (out : List (DayGroup A)) (events : List A)
      → all is_group out ≡ true
      → is_split out ≡ true
      → (flat (group_from ts label out events) ≡ flat out ++ events)
        × (all is_group (group_from ts label out events) ≡ true)
        × (is_split (group_from ts label out events) ≡ true)
  unfolding group_from
  group_from_lem out [] h k = (sym (append-nil (flat out)), h, k)
  group_from_lem out (e ∷ events) h k =
      let day = label (ts e) in
      let (same, groups, split) =
        group_from_lem (add_event day e out) events (groups-add_event e out h)
          (is_split-add_event day e out k) in
      (
        same ∙ rw (flat-add_event day e out) (append_assoc (flat out) (e ∷ []) events),
        groups,
        split,
      )

  -- The groups one after the other are the events as they came, every group holds an event, all
  -- events of a group are of its day, and no two groups in a row are of the same day.
  pub group_by_day_lem :
      (events : List A)
      → (flat (group_by_day ts label events) ≡ events)
        × (all is_group (group_by_day ts label events) ≡ true)
        × (is_split (group_by_day ts label events) ≡ true)
  unfolding group_by_day
  group_by_day_lem events = group_from_lem [] events refl refl
