-- ===== src/Days.antt =====
-- Entries grouped by local day: `groupByDay` of frontend/src/pages/audit/auditLog.ts and `byDay` of
-- frontend/src/pages/device/timeline.ts are the same loop, over audit events and over timeline
-- entries. The label of a time depends on the time zone and is a parameter.
pub mod Laws
mod Tests
use rmm_rxf_sys_de.Base.{ℕ, String, List, [], ◌∷◌, ◌++◌, str_eq, if◌then◌else◌}

pub record DayGroup (A : Type 0) : Type 0 where
  pub day : String
  pub events : List A

module _ {A : Type 0} where
  -- One round of the loop: the event joins the last group or starts a new one.
  unfoldable pub add_event : String → A → List (DayGroup A) → List (DayGroup A)
  add_event day e [] = record { day = day; events = e ∷ [] } ∷ []
  add_event day e (last ∷ []) =
      if str_eq last.day day
      then record { day = last.day; events = last.events ++ e ∷ [] } ∷ []
      else last ∷ record { day = day; events = e ∷ [] } ∷ []
  add_event day e (g ∷ h ∷ out) = g ∷ add_event day e (h ∷ out)

module _ {A : Type 0} (ts : A → ℕ) (label : ℕ → String) where
  unfoldable pub group_from : List (DayGroup A) → List A → List (DayGroup A)
  group_from out [] = out
  group_from out (e ∷ events) = group_from (add_event (label (ts e)) e out) events

  unfoldable pub group_by_day : List A → List (DayGroup A)
  group_by_day events = group_from [] events
