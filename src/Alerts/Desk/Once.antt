-- ===== src/Alerts/Desk/Once.antt =====
-- No alert is acknowledged twice at a time: frontend/src/pages/alerts/AlertsPage.tsx, lines 276 to
-- 407.
use rmm_rxf_sys_de.Base.{
  ℕ, ◌+◌, ◌≤◌, ◌≡◌, refl, ap, ◌∙◌, Bool, true, false, ◌||◌, ltb, Option, none, some, List, [], ◌∷◌,
  ◌++◌, filter, count, Bool-cases, inl, inr, ◌==◌, if◌then◌else◌, arith,
}
use rmm_rxf_sys_de.Base.IdSet.{has, has-put_all}
use rmm_rxf_sys_de.Bulk.Run.{Failure}
use rmm_rxf_sys_de.Fleet.Types.{Alert}
use rmm_rxf_sys_de.Alerts.Ack.{still_to_ack, is_sendable, still_to_ack_lem}
use rmm_rxf_sys_de.Alerts.Report.{Thrown, AckSkipped}
use rmm_rxf_sys_de.Alerts.Desk.{
  Desk, Round, opened, ids_of, acknowledge, on_ack, on_ack_all, on_answer, on_refresh, on_done,
  on_rendered, ask,
}

-- How often an alert is on a list, or out in a request.
abbrev pub times : ℕ → List Alert → ℕ
times id list = count (λ x. x == id) (ids_of list)

abbrev pub out : ℕ → List Round → ℕ
out id [] = 0
out id (r ∷ rounds) = times id r.list + out id rounds

abbrev pub Distinct : List Alert → Type 0
Distinct list = (id : ℕ) → times id list ≤ 1

-- What happens on the page. The server's list has each alert once, and the page shows no alert twice.
pub data Step : Desk → Desk → Type 0 where
  acks : (s : Desk) (a : Alert) (index : ℕ) → Step s (on_ack a index s)
  acks_all : (s : Desk) (shown : List Alert) → Distinct shown → Step s (on_ack_all shown s)
  answers :
      (s : Desk) (ok : Bool) (targets : List Alert)
      → s.asking ≡ some targets
      → Step s (on_answer ok targets s)
  refreshes : (s : Desk) (alerts : List Alert) → Step s (on_refresh alerts s)
  ends :
      (s : Desk) (xs : List Round) (r : Round) (ys : List Round) (ok : List Alert)
      (failed : List (Failure Alert Thrown))
      → s.rounds ≡ xs ++ r ∷ ys
      → Step s (on_done xs r ys ok failed s)
  renders : (s : Desk) (rows : List Alert) → Step s (on_rendered rows s)

pub data Reach (s : Desk) : Desk → Type 0 where
  here : Reach s s
  next : {t u : Desk} → Reach s t → Step t u → Reach s u

abbrev DistinctIf : Option (List Alert) → Type 0
DistinctIf none = Unit
DistinctIf (some targets) = Distinct targets

record IsValid (s : Desk) : Type 0 where
  once : (id : ℕ) → out id s.rounds ≡ (if has id s.busy then 1 else 0)
  asked : DistinctIf s.asking

out-append : (id : ℕ) (xs ys : List Round) → out id (xs ++ ys) ≡ out id xs + out id ys
out-append id [] ys = omega arith
out-append id (r ∷ xs) ys = omega (arith, out-append id xs ys)

times-has : (id : ℕ) (list : List Alert) → (if has id (ids_of list) then 1 else 0) ≤ times id list
times-has id [] = omega arith
times-has id (a ∷ list) = ground (arith, times-has id list)

-- An alert that no list has.
times-none : (id : ℕ) (list : List Alert) → has id (ids_of list) ≡ false → times id list ≡ 0
times-none id [] h = refl
times-none id (a ∷ list) h = ground (arith, times-none id list)

times-filter :
    (p : Alert → Bool) (id : ℕ) (list : List Alert) → times id (filter p list) ≤ times id list
times-filter p id [] = omega arith
times-filter p id (a ∷ list) = ground (arith, times-filter p id list)

-- No alert of the list is busy.
abbrev Free : List Alert → List ℕ → Type 0
Free list busy = (id : ℕ) → has id (ids_of list) ≡ true → has id busy ≡ false

acknowledge-IsValid :
    (list : List Alert) (index : ℕ) (skipped : Option AckSkipped) (is_bulk : Bool) (s : Desk)
    → Distinct list
    → Free list s.busy
    → IsValid s
    → IsValid (acknowledge list index skipped is_bulk s)
unfolding acknowledge
acknowledge-IsValid list index skipped is_bulk s d f v = record {
  once = λ id.
      rw (out-append id s.rounds _, has-put_all true id (ids_of list) s.busy)
        (elim (Bool-cases (has id (ids_of list))) [
          | inl on ↦ rw (on) (ground (arith, v.once id, f id, d id, times-has id list))
          | inr off ↦ rw (off) (ground (arith, v.once id, times-none id list))
        ]);
  asked = v.asked;
}

one-Distinct : (a : Alert) → Distinct (a ∷ [])
one-Distinct a id = ground arith

sendable-Free :
    (current : List Alert) (busy : List ℕ) (targets : List Alert)
    → Free (filter (is_sendable current busy) targets) busy
sendable-Free current busy [] id h = absurd (ground arith)
sendable-Free current busy (a ∷ targets) id h = elim (Bool-cases (is_sendable current busy a)) [
  | inr held ↦ sendable-Free current busy targets id (rw (held) at h)
  | inl sent ↦ elim (Bool-cases (a.id == id)) [
    | inl same ↦
        let e : a.id ≡ id = ground arith in
        let free : has a.id busy ≡ false = ground arith in rw (e) at free
    | inr other ↦
        let kept : (a.id == id || has id (ids_of (filter (is_sendable current busy) targets)))
            ≡ true =
          rw (sent) at h in
        sendable-Free current busy targets id (ground arith)
  ]
]

on_ack-IsValid : (a : Alert) (index : ℕ) (s : Desk) → IsValid s → IsValid (on_ack a index s)
unfolding on_ack
on_ack-IsValid a index s v = elim (Bool-cases (has a.id s.busy)) [
  | inl busy ↦ rw (busy) v
  | inr free ↦ rw (free) (
      acknowledge-IsValid (a ∷ []) index none false s (one-Distinct a)
        (λ id h. let e : a.id ≡ id = ground arith in rw (e) at free) v)
]

send-Distinct :
    (named current : List Alert) (busy : List ℕ)
    → Distinct named
    → Distinct (still_to_ack named current busy).send
send-Distinct named current busy d id =
    rw ((still_to_ack_lem current busy named).0)
      (omega (arith, d id, times-filter (is_sendable current busy) id named))

send-Free :
    (named current : List Alert) (busy : List ℕ) → Free (still_to_ack named current busy).send busy
send-Free named current busy =
    rw ((still_to_ack_lem current busy named).0) (sendable-Free current busy named)

ask-IsValid :
    (targets : List Alert) (s : Desk) → Distinct targets → IsValid s → IsValid (ask targets s)
ask-IsValid [] s d v = v
ask-IsValid (a ∷ targets) s d v = record { once = v.once; asked = d }

on_ack_all-IsValid :
    (shown : List Alert) (s : Desk) → Distinct shown → IsValid s → IsValid (on_ack_all shown s)
unfolding on_ack_all
on_ack_all-IsValid shown s d v = either s.bulk_running v (
    ask-IsValid (still_to_ack shown s.alerts s.busy).send s (send-Distinct shown s.alerts s.busy d)
      v)
  where
    either : {t u : Desk} (b : Bool) → IsValid t → IsValid u → IsValid (if b then t else u)
    either true h k = h
    either false h k = k

on_answer-IsValid :
    (ok : Bool) (targets : List Alert) (s : Desk)
    → Distinct targets
    → IsValid s
    → IsValid (on_answer ok targets s)
unfolding on_answer
on_answer-IsValid false targets s d v = record { once = v.once; asked = tt }
on_answer-IsValid true targets s d v =
    let r = still_to_ack targets s.alerts s.busy in
    acknowledge-IsValid r.send 0 (some (record { acked = r.acked; resolved = r.resolved })) true
      (record s { bulk_running = true; asking = none }) (send-Distinct targets s.alerts s.busy d)
      (send-Free targets s.alerts s.busy) (record { once = v.once; asked = tt })

on_done-IsValid :
    (xs : List Round) (r : Round) (ys : List Round) (ok : List Alert)
    (failed : List (Failure Alert Thrown)) (s : Desk)
    → s.rounds ≡ xs ++ r ∷ ys
    → IsValid s
    → IsValid (on_done xs r ys ok failed s)
unfolding on_done
on_done-IsValid xs r ys ok failed s e v = record {
  once = λ id.
      let all = ap (out id) e ∙ out-append id xs (r ∷ ys) in
      rw (out-append id xs ys, has-put_all false id (ids_of r.list) s.busy)
        (elim (Bool-cases (has id (ids_of r.list))) [
          | inl on ↦ rw (on) (ground (arith, v.once id, times-has id r.list))
          | inr off ↦ rw (off) (ground (arith, v.once id, times-none id r.list))
        ]);
  asked = v.asked;
}

Step-IsValid : {s t : Desk} → Step s t → IsValid s → IsValid t
unfolding on_refresh on_rendered
Step-IsValid (acks s a index) v = on_ack-IsValid a index s v
Step-IsValid (acks_all s shown d) v = on_ack_all-IsValid shown s d v
Step-IsValid (answers s ok targets e) v = on_answer-IsValid ok targets s (rw (e) at v.asked) v
Step-IsValid (refreshes s alerts) v = record { once = v.once; asked = v.asked }
Step-IsValid (ends s xs r ys ok failed e) v = on_done-IsValid xs r ys ok failed s e v
Step-IsValid (renders s rows) v = record { once = v.once; asked = v.asked }

-- Whatever is clicked, confirmed and refreshed, and in whatever order the rounds of requests end, an
-- alert is out in at most one request, and its button is busy exactly while it is.
pub acknowledged_once :
    {alerts : List Alert} {s : Desk}
    → Reach (opened alerts) s
    → (id : ℕ) → (out id s.rounds ≤ 1) × (has id s.busy ≡ ltb 0 (out id s.rounds))
acknowledged_once r id = let v = (Reach-IsValid r).once id in (ground arith, ground arith)
  where
    Reach-IsValid : {alerts : List Alert} {s : Desk} → Reach (opened alerts) s → IsValid s
    Reach-IsValid here = record { once = λ id. refl; asked = tt }
    Reach-IsValid (next r st) = Step-IsValid st (Reach-IsValid r)
