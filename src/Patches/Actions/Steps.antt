-- ===== src/Patches/Actions/Steps.antt =====
-- The orders of what happens on the page of updates, and what they keep: frontend/src/pages/patches/PatchesPage.tsx, lines
-- 402 to 515.
use rmm_rxf_sys_de.Base.{
  ℕ, zero, suc, ◌≡◌, refl, sym, ap, ◌∙◌, Bool, true, false, ◌&&◌, ◌||◌, String, Option, none, some,
  is_some, List, [], ◌∷◌, ◌++◌, map, length, length-append, All, All-at, All-append, All-without,
  All-replaced, Bool-cases, inl, inr, if◌then◌else◌, arith,
}
use rmm_rxf_sys_de.Fleet.Types.{Device, PatchSummary}
use rmm_rxf_sys_de.Fleet.Jobs.{Job}
use rmm_rxf_sys_de.Alerts.Report.{Thrown}
use rmm_rxf_sys_de.Bulk.Run.{
  Bulk, Settled, resolved, rejected, start, settle, settles, Steps, here, next,
}
use rmm_rxf_sys_de.Bulk.Run.Complete.{map-append_one}
use rmm_rxf_sys_de.Bulk.Selection.{partition, reachable}
use rmm_rxf_sys_de.Patches.Orders.{Work, scan, install, queue, rules, Order, order, Round}
use rmm_rxf_sys_de.Patches.Actions.{
  Desk, opened, begin, offered, press, press_row, is_disabled, approached, on_answer, note_job,
  on_settled, on_over, on_late, refresh_fleet, workers,
}
use rmm_rxf_sys_de.Track.Round.{Entry}

module _ (fmt : ℕ → String) where
  -- What happens on the page. The open dialog keeps the focus, so nothing else is pressed under it.
  pub data Step : Desk → Desk → Type 0 where
    presses :
        (s : Desk) (w : Work) (list : List Device) (ps : PatchSummary)
        → s.asking ≡ none
        → Step s (press w list ps s)
    presses_row :
        (s : Desk) (d : Device) (ps : PatchSummary) → s.asking ≡ none → Step s (press_row d ps s)
    answers : (s : Desk) (ok : Bool) (o : Order) → s.asking ≡ some o → Step s (on_answer ok o s)
    replies :
        (s : Desk) (xs : List Round) (r : Round) (ys : List Round) (before : List Device)
        (d : Device) (after : List Device) (job : Job) (res : Settled Thrown)
        → s.rounds ≡ xs ++ r ∷ ys
        → r.bulk.running ≡ before ++ d ∷ after
        → Step s (on_settled xs r ys before d after job res s)
    ends :
        (s : Desk) (xs : List Round) (r : Round) (ys : List Round)
        → s.rounds ≡ xs ++ r ∷ ys
        → r.bulk.running ≡ []
        → Step s (on_over fmt xs r ys s)
    refreshes_late :
        (s : Desk) (xs : List (List Device)) (touched : List Device) (ys : List (List Device))
        → s.late ≡ xs ++ touched ∷ ys
        → Step s (on_late xs touched ys s)

  pub data Reach (s : Desk) : Desk → Type 0 where
    at_start : Reach s s
    after : {t u : Desk} → Reach s t → Step t u → Reach s u

-- The jobs that a round has to follow.
abbrev pub installed : Work → List Device → List String
installed install ok = map (λ (d : Device). d.hostname) ok
installed _ ok = []

abbrev pub names : List Entry → List String
names started = map (λ (e : Entry). e.device_name) started

abbrev pub IsPlanned : Order → Type 0
IsPlanned o = o.plan ≡ partition o.list (rules o.work o.summary)

pub record IsRound (r : Round) : Type 0 where
  pub planned : IsPlanned r.order
  pub steps : ℕ
  pub run : Steps (start workers r.order.plan.targets) steps r.bulk
  pub follows : names r.started ≡ installed r.order.work r.bulk.ok

abbrev pub PlannedIf : Option Order → Type 0
PlannedIf none = Unit
PlannedIf (some o) = IsPlanned o

pub record IsValid (s : Desk) : Type 0 where
  pub one : length s.rounds ≡ (if s.busy then 1 else 0)
  pub idle : (is_some s.asking && s.busy) ≡ false
  pub asked : PlannedIf s.asking
  pub sound : All IsRound s.rounds

opened-IsValid : IsValid opened
opened-IsValid = record { one = refl; idle = refl; asked = tt; sound = tt }

begin-IsValid :
    (o : Order) (s : Desk) → IsPlanned o → s.busy ≡ false → IsValid s → IsValid (begin o s)
unfolding begin start
begin-IsValid o s p h v = record {
  one = rw (length-append s.rounds _) (ground (arith, v.one));
  idle = refl;
  asked = tt;
  sound =
      All-append IsRound s.rounds _ v.sound
        (record { planned = p; steps = zero; run = here; follows = none_yet o.work }, tt);
}
  where
    none_yet : (w : Work) → [] ≡ installed w []
    none_yet scan = refl
    none_yet install = refl
    none_yet queue = refl

order-IsPlanned : (w : Work) (list : List Device) (ps : PatchSummary) → IsPlanned (order w list ps)
unfolding order
order-IsPlanned w list ps = refl

offered-IsValid :
    (targets : List Device) (o : Order) (s : Desk)
    → IsPlanned o
    → s.busy ≡ false
    → IsValid s
    → IsValid (offered targets o s)
offered-IsValid [] o s p h v = record {
  one = v.one;
  idle = v.idle;
  asked = v.asked;
  sound = v.sound;
}
offered-IsValid (d ∷ targets) o s p h v = by_work o.work
  where
    by_work : (w : Work) → IsValid (approached w o s)
    by_work scan = begin-IsValid o s p h v
    by_work install = record { one = v.one; idle = rw (h) refl; asked = p; sound = v.sound }
    by_work queue = record { one = v.one; idle = rw (h) refl; asked = p; sound = v.sound }

press-IsValid :
    (w : Work) (list : List Device) (ps : PatchSummary) (s : Desk)
    → IsValid s
    → IsValid (press w list ps s)
unfolding press
press-IsValid w list ps s v = elim (Bool-cases (s.busy || is_disabled w list ps)) [
  | inl off ↦ rw (off) v
  | inr on ↦ rw (on) (
      offered-IsValid (order w list ps).plan.targets (order w list ps) s (order-IsPlanned w list ps)
        (ground arith) v)
]

press_row-IsValid :
    (d : Device) (ps : PatchSummary) (s : Desk) → IsValid s → IsValid (press_row d ps s)
unfolding press_row
press_row-IsValid d ps s v = elim (Bool-cases (reachable d)) [
  | inl on ↦ rw (on) (press-IsValid scan (d ∷ []) ps s v)
  | inr off ↦ rw (off) v
]

on_answer-IsValid :
    (ok : Bool) (o : Order) (s : Desk) → s.asking ≡ some o → IsValid s → IsValid (on_answer ok o s)
unfolding on_answer
on_answer-IsValid false o s h v = record { one = v.one; idle = refl; asked = tt; sound = v.sound }
on_answer-IsValid true o s h v = begin-IsValid o s (rw (h) at v.asked) (rw (h) at v.idle) v

names-note_job :
    (w : Work) (d : Device) (job : Job) (res : Settled Thrown) (started : List Entry)
    (s : Bulk Device Thrown) (xs ys : List Device)
    → names started ≡ installed w s.ok
    → names (note_job w d job res started) ≡ installed w (settle xs d ys res s).ok
unfolding settle
names-note_job scan d job resolved started s xs ys h = h
names-note_job scan d job (rejected e) started s xs ys h = h
names-note_job queue d job resolved started s xs ys h = h
names-note_job queue d job (rejected e) started s xs ys h = h
names-note_job install d job (rejected e) started s xs ys h = h
names-note_job install d job resolved started s xs ys h =
    map-append_one (λ (e : Entry). e.device_name) started _
    ∙ ap (λ ns. ns ++ d.hostname ∷ []) h
    ∙ sym (map-append_one (λ (d : Device). d.hostname) s.ok d)

on_settled-IsRound :
    (r : Round) (before : List Device) (d : Device) (rest : List Device) (job : Job)
    (res : Settled Thrown)
    → r.bulk.running ≡ before ++ d ∷ rest
    → IsRound r
    → IsRound (record r {
      bulk = settle before d rest res r.bulk;
      started = note_job r.order.work d job res r.started;
    })
on_settled-IsRound r before d rest job res h v = record {
  planned = v.planned;
  steps = suc v.steps;
  run = next v.run (settles r.bulk before rest d res h);
  follows = names-note_job r.order.work d job res r.started r.bulk before rest v.follows;
}

module _ (fmt : ℕ → String) where
  Step-IsValid : {s t : Desk} → Step fmt s t → IsValid s → IsValid t
  unfolding on_settled on_over on_late refresh_fleet
  Step-IsValid (presses s w list ps h) v = press-IsValid w list ps s v
  Step-IsValid (presses_row s d ps h) v = press_row-IsValid d ps s v
  Step-IsValid (answers s ok o h) v = on_answer-IsValid ok o s h v
  Step-IsValid (replies s xs r ys before d rest job res e h) v =
      let sound : All IsRound (xs ++ r ∷ ys) = rw (e) at v.sound in
      record {
        one =
            rw (length-append xs _) (ground (arith, v.one, ap length e, length-append xs (r ∷ ys)));
        idle = v.idle;
        asked = v.asked;
        sound =
            All-replaced IsRound xs r _ ys sound
              (on_settled-IsRound r before d rest job res h (All-at IsRound xs r ys sound));
      }
  Step-IsValid (ends s xs r ys e h) v =
      let sound : All IsRound (xs ++ r ∷ ys) = rw (e) at v.sound in
      record {
        one = ground (arith, v.one, ap length e, length-append xs (r ∷ ys), length-append xs ys);
        idle = ground arith;
        asked = v.asked;
        sound = All-without IsRound xs r ys sound;
      }
  Step-IsValid (refreshes_late s xs touched ys e) v = record {
    one = v.one;
    idle = v.idle;
    asked = v.asked;
    sound = v.sound;
  }

  pub Reach-IsValid : {s : Desk} → Reach fmt opened s → IsValid s
  Reach-IsValid at_start = opened-IsValid
  Reach-IsValid (after r st) = Step-IsValid st (Reach-IsValid r)
