-- ===== src/Track/Ledger.antt =====
-- The books on a round of followed jobs, from its start to its verdict, while its account is signed
-- in: frontend/src/ui/toast.tsx, lines 139 to 220.

use rmm_rxf_sys_de.Base.{
  ℕ, ◌+◌, ◌≤◌, ◌<◌, ◌≡◌, ◌≢◌, refl, ap, String, Bool, true, not, Option, none, some, List, [], ◌∷◌,
  ◌++◌, map, filter, count, length, Bool-cases, inl, inr, ◌==◌, if◌then◌else◌, arith,
}
use rmm_rxf_sys_de.Fleet.Jobs.{Job, is_final, is_done}
use rmm_rxf_sys_de.Track.{
  Session, Toast, ToastKind, loading, success, warning, error, waiting, asking, over,
}
use rmm_rxf_sys_de.Track.Round.{
  Entry, Round, bulk_poll_batch, track_round, on_round, on_round_answer, on_round_failure,
  on_round_settled,
}

-- The final answers, as the failures are kept: the answer's job under the name of the entry.
abbrev pub ended_by : Job → Entry → List Entry
ended_by j e =
    if is_final j.status then record { job = j; device_name = e.device_name } ∷ [] else []

-- What happens to a round while the sessions are those of the account that started it, and the
-- final answers that came so far, in order. A request is answered for the job that it asks for.
pub data Run (gen : ℕ) (entries : List Entry) : List Entry → Round → Type 0 where
  begins :
      (now : ℕ) (s : Session) (label : String)
      → s.generation ≡ gen
      → Run gen entries [] (track_round now s entries label)
  fires :
      {ended : List Entry} {r : Round} (s : Session) (due : ℕ)
      → Run gen entries ended r
      → s.generation ≡ gen
      → r.phase ≡ waiting due
      → Run gen entries ended (on_round s r)
  answers :
      {ended : List Entry} {r : Round} (now : ℕ) (s : Session) (j : Job) (xs : List Entry)
      (e : Entry) (ys : List Entry)
      → Run gen entries ended r
      → s.generation ≡ gen
      → r.phase ≡ asking
      → r.out ≡ xs ++ e ∷ ys
      → j.id ≡ e.job.id
      → Run gen entries (ended ++ ended_by j e) (on_round_answer now s j xs e ys r).1
  fails :
      {ended : List Entry} {r : Round} (xs : List Entry) (e : Entry) (ys : List Entry)
      → Run gen entries ended r
      → r.phase ≡ asking
      → r.out ≡ xs ++ e ∷ ys
      → Run gen entries ended (on_round_failure xs e ys r)
  settles :
      {ended : List Entry} {r : Round} (now : ℕ) (s : Session)
      → Run gen entries ended r
      → s.generation ≡ gen
      → r.phase ≡ asking
      → r.out ≡ []
      → Run gen entries ended (on_round_settled now s r)

abbrev pub ids : List Entry → List ℕ
ids es = map (λ (e : Entry). e.job.id) es

-- How often the round holds a job: waiting, asked for, or with its final answer.
abbrev pub held : (ℕ → Bool) → List Entry → Round → ℕ
held p ended r = count p (ids r.queue) + count p (ids r.out) + count p (ids ended)

abbrev pub failures : List Entry → List Entry
failures ended = filter (λ (e : Entry). not (is_done e.job.status)) ended

-- What the last toast says of the final answers.
abbrev pub Says : ToastKind → List Entry → List Entry → Round → Type 0
Says loading entries ended r = Unit
Says success entries ended r = (length ended ≡ length entries) × (failures ended ≡ [])
Says error entries ended r = (length ended ≡ length entries) × (0 < length (failures ended))
Says warning entries ended r = 0 < length r.queue

abbrev pub Said : Option Toast → List Entry → List Entry → Round → Type 0
Said none entries ended r = Unit
Said (some t) entries ended r = Says t.kind entries ended r

-- The toast says that the round is running.
abbrev pub IsQuiet : Option Toast → Type 0
IsQuiet none = Unit
IsQuiet (some t) = t.kind ≡ loading

pub IsQuiet-Said :
    (t : Option Toast) (entries ended : List Entry) (r : Round) → IsQuiet t → Said t entries ended r
IsQuiet-Said none entries ended r h = tt
IsQuiet-Said (some t) entries ended r h = rw (h) tt

pub record IsAccounted (gen : ℕ) (entries ended : List Entry) (r : Round) : Type 0 where
  pub mine : r.gen ≡ gen
  pub given : r.entries ≡ entries
  pub few : length r.out ≤ bulk_poll_batch
  pub still : (due : ℕ) → r.phase ≡ waiting due → r.out ≡ []
  pub all : (p : ℕ → Bool) → held p ended r ≡ count p (ids entries)
  pub lost : r.failed ≡ failures ended
  pub done : r.finished ≡ length ended
  pub quiet : r.phase ≢ over → IsQuiet r.toast
  pub said : Said r.toast entries ended r

pub count-ids :
    (p : ℕ → Bool) (xs ys : List Entry)
    → count p (ids (xs ++ ys)) ≡ count p (ids xs) + count p (ids ys)
count-ids p [] ys = omega arith
count-ids p (e ∷ xs) ys = ground (arith, count-ids p xs ys)

pub failures-append : (xs ys : List Entry) → failures (xs ++ ys) ≡ failures xs ++ failures ys
failures-append [] ys = refl
failures-append (e ∷ xs) ys = elim (Bool-cases (is_done e.job.status)) [
  | inl fine ↦ rw (fine) (failures-append xs ys)
  | inr bad ↦ rw (bad) (ap (λ es. e ∷ es) (failures-append xs ys))
]

pub all_ids : (es : List Entry) → count (λ id. true) (ids es) ≡ length es
all_ids [] = refl
all_ids (e ∷ es) = omega (arith, all_ids es)

pub same_generation : (a b : ℕ) → a ≡ b → (a == b) ≡ true
same_generation a b h = ground arith
