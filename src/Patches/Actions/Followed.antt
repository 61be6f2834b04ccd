-- ===== src/Patches/Actions/Followed.antt =====
-- Every job that an installation started is followed: frontend/src/pages/patches/PatchesPage.tsx,
-- lines 464 to 474.
use mathlib.Core.List.{append_assoc, append-nil}
use rmm_rxf_sys_de.Base.{
  ℕ, ◌≤◌, ◌≡◌, refl, sym, ap, ◌∙◌, Bool, true, false, ◌||◌, String, List, [], ◌∷◌, ◌++◌, length,
  length-append, All-at, Bool-cases, inl, inr, arith,
}
use rmm_rxf_sys_de.Bulk.Run.{Settled, resolved, rejected}
use rmm_rxf_sys_de.Fleet.Types.{Device, PatchSummary}
use rmm_rxf_sys_de.Fleet.Jobs.{Job}
use rmm_rxf_sys_de.Bulk.Selection.{reachable}
use rmm_rxf_sys_de.Alerts.Report.{Thrown}
use rmm_rxf_sys_de.Track.Round.{Entry}
use rmm_rxf_sys_de.Patches.Orders.{Work, scan, install, queue, Order, order, Round}
use rmm_rxf_sys_de.Patches.Actions.{
  Desk, opened, begin, approached, offered, press, press_row, is_disabled, on_answer, note_job,
  on_settled, on_over, followed_of, on_late, refresh_fleet,
}
use rmm_rxf_sys_de.Patches.Actions.Steps.{
  Step, presses, presses_row, answers, replies, ends, refreshes_late, Reach, at_start, after,
  IsRound, installed, names, Reach-IsValid,
}
use rmm_rxf_sys_de.Patches.Actions.Rounds.{one_round}

-- The jobs that the answers to installations brought: a reply to a call of an installation that
-- worked brings one, and nothing else does.
abbrev brought : Work → Device → Job → Settled Thrown → List Entry
brought install d job resolved = record { job = job; device_name = d.hostname } ∷ []
brought _ d job _ = []

module _ {fmt : ℕ → String} where
  abbrev brought_by : {s t : Desk} → Step fmt s t → List Entry
  brought_by (replies s xs r ys before d rest job res e h) = brought r.order.work d job res
  brought_by _ = []

  unfoldable pub all_brought : {s t : Desk} → Reach fmt s t → List Entry
  all_brought at_start = []
  all_brought (after reach st) = all_brought reach ++ brought_by st

abbrev pub concat : List (List Entry) → List Entry
concat [] = []
concat (es ∷ ess) = es ++ concat ess

-- What the rounds that still run will follow.
abbrev pub to_follow : List Round → List Entry
to_follow [] = []
to_follow (r ∷ rounds) = r.started ++ to_follow rounds

abbrev pub tracked : Desk → List Entry
tracked s = concat s.followed ++ to_follow s.rounds

concat-append : (xs ys : List (List Entry)) → concat (xs ++ ys) ≡ concat xs ++ concat ys
concat-append [] ys = refl
concat-append (x ∷ xs) ys =
    ap (λ zs. x ++ zs) (concat-append xs ys) ∙ sym (append_assoc x (concat xs) (concat ys))

to_follow-append : (xs ys : List Round) → to_follow (xs ++ ys) ≡ to_follow xs ++ to_follow ys
to_follow-append [] ys = refl
to_follow-append (r ∷ xs) ys =
    ap (λ es. r.started ++ es) (to_follow-append xs ys)
    ∙ sym (append_assoc r.started (to_follow xs) (to_follow ys))

begin-tracked : (o : Order) (s : Desk) → tracked (begin o s) ≡ tracked s
unfolding begin
begin-tracked o s =
    ap (λ es. concat s.followed ++ es)
      (to_follow-append s.rounds _ ∙ append-nil (to_follow s.rounds))

offered-tracked :
    (targets : List Device) (o : Order) (s : Desk) → tracked (offered targets o s) ≡ tracked s
offered-tracked [] o s = refl
offered-tracked (d ∷ targets) o s = by_work o.work
  where
    by_work : (w : Work) → tracked (approached w o s) ≡ tracked s
    by_work scan = begin-tracked o s
    by_work install = refl
    by_work queue = refl

press-tracked :
    (w : Work) (list : List Device) (ps : PatchSummary) (s : Desk)
    → tracked (press w list ps s) ≡ tracked s
unfolding press
press-tracked w list ps s = elim (Bool-cases (s.busy || is_disabled w list ps)) [
  | inl off ↦ rw (off) refl
  | inr on ↦ rw (on) (offered-tracked (order w list ps).plan.targets (order w list ps) s)
]

press_row-tracked :
    (d : Device) (ps : PatchSummary) (s : Desk) → tracked (press_row d ps s) ≡ tracked s
unfolding press_row
press_row-tracked d ps s = elim (Bool-cases (reachable d)) [
  | inl on ↦ rw (on) (press-tracked scan (d ∷ []) ps s)
  | inr off ↦ rw (off) refl
]

on_answer-tracked : (ok : Bool) (o : Order) (s : Desk) → tracked (on_answer ok o s) ≡ tracked s
unfolding on_answer
on_answer-tracked false o s = refl
on_answer-tracked true o s = begin-tracked o s

note_job-brought :
    (w : Work) (d : Device) (job : Job) (res : Settled Thrown) (started : List Entry)
    → note_job w d job res started ≡ started ++ brought w d job res
note_job-brought scan d job resolved started = sym (append-nil started)
note_job-brought scan d job (rejected e) started = sym (append-nil started)
note_job-brought queue d job resolved started = sym (append-nil started)
note_job-brought queue d job (rejected e) started = sym (append-nil started)
note_job-brought install d job resolved started = refl
note_job-brought install d job (rejected e) started = sym (append-nil started)

no_names : (started : List Entry) → names started ≡ [] → started ≡ []
no_names [] h = refl
no_names (e ∷ es) h = absurd cc

concat-followed_of :
    (fmt : ℕ → String) (w : Work) (started : List Entry) (ok : List Device)
    → names started ≡ installed w ok
    → concat (followed_of fmt w started) ≡ started
concat-followed_of fmt scan started ok h = sym (no_names started h)
concat-followed_of fmt queue started ok h = sym (no_names started h)
concat-followed_of fmt install started ok h = append-nil started

-- The round that is alone.
module _ (fmt : ℕ → String) (s : Desk) (r : Round) where
  replies-tracked :
      (xs ys : List Round) (before : List Device) (d : Device) (rest : List Device) (job : Job)
      (res : Settled Thrown)
      → s.rounds ≡ xs ++ r ∷ ys
      → length s.rounds ≤ 1
      → tracked (on_settled xs r ys before d rest job res s)
        ≡ tracked s ++ brought r.order.work d job res
  unfolding on_settled
  replies-tracked [] [] before d rest job res e one = rw (e) (
      ap (λ es. concat s.followed ++ es)
        (append-nil _
          ∙ note_job-brought r.order.work d job res r.started
          ∙ ap (λ es. es ++ brought r.order.work d job res) (sym (append-nil r.started)))
      ∙ sym (append_assoc (concat s.followed) (r.started ++ []) (brought r.order.work d job res)))
  replies-tracked [] (y ∷ ys) before d rest job res e one = absurd (omega (arith, ap length e, one))
  replies-tracked (x ∷ xs) ys before d rest job res e one =
      absurd (omega (arith, ap length e, one, length-append xs (r ∷ ys)))

  ends-tracked :
      (xs ys : List Round)
      → s.rounds ≡ xs ++ r ∷ ys
      → length s.rounds ≤ 1
      → names r.started ≡ installed r.order.work r.bulk.ok
      → tracked (on_over fmt xs r ys s) ≡ tracked s
  unfolding on_over refresh_fleet
  ends-tracked [] [] e one h = rw (e) (
      append-nil _
      ∙ concat-append s.followed (followed_of fmt r.order.work r.started)
      ∙ ap (λ es. concat s.followed ++ es)
          (concat-followed_of fmt r.order.work r.started r.bulk.ok h ∙ sym (append-nil r.started)))
  ends-tracked [] (y ∷ ys) e one h = absurd (omega (arith, ap length e, one))
  ends-tracked (x ∷ xs) ys e one h =
      absurd (omega (arith, ap length e, one, length-append xs (r ∷ ys)))

module _ {fmt : ℕ → String} where
  Step-tracked :
      {s t : Desk}
      → Reach fmt opened s
      → (st : Step fmt s t) → tracked t ≡ tracked s ++ brought_by st
  unfolding on_late refresh_fleet
  Step-tracked reach (presses s w list ps h) =
      press-tracked w list ps s ∙ sym (append-nil (tracked s))
  Step-tracked reach (presses_row s d ps h) =
      press_row-tracked d ps s ∙ sym (append-nil (tracked s))
  Step-tracked reach (answers s ok o h) = on_answer-tracked ok o s ∙ sym (append-nil (tracked s))
  Step-tracked reach (replies s xs r ys before d rest job res e h) =
      replies-tracked fmt s r xs ys before d rest job res e (one_round fmt s reach).0
  Step-tracked reach (ends s xs r ys e h) =
      ends-tracked fmt s r xs ys e (one_round fmt s reach).0
        (All-at IsRound xs r ys (rw (e) at (Reach-IsValid fmt reach).sound)).follows
      ∙ sym (append-nil (tracked s))
  Step-tracked reach (refreshes_late s xs touched ys e) = sym (append-nil (tracked s))

-- Whatever happens on the page, every job that the answer to an installation brought is followed,
-- once, and nothing else is: the jobs handed over to be followed so far, and after them those that
-- the round still running keeps to hand over when it is over, are the jobs that the answers brought,
-- in the order in which they came, each under the name of its device.
pub jobs_followed :
    (fmt : ℕ → String) (s : Desk) (reach : Reach fmt opened s)
    → concat s.followed ++ to_follow s.rounds ≡ all_brought reach
unfolding all_brought
jobs_followed fmt s at_start = refl
jobs_followed fmt s (after reach st) =
    Step-tracked reach st ∙ ap (λ es. es ++ brought_by st) (jobs_followed fmt _ reach)
