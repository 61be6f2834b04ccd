-- ===== src/Track/Accounts.antt =====
-- The books on a round of followed jobs stay in balance: frontend/src/ui/toast.tsx, lines 139 to
-- 220.
use mathlib.Core.List.{append-nil}
use rmm_rxf_sys_de.Base.{
  ℕ, ◌-◌, ◌≤◌, ◌≡◌, refl, sym, ap, ◌∙◌, String, Bool, true, false, List, [], ◌∷◌, ◌++◌, count, take,
  drop, take-append-drop, length, length-append, length-take, Bool-cases, inl, inr, ◌==◌, leb,
  if◌then◌else◌, arith,
}
use rmm_rxf_sys_de.Fleet.Jobs.{Job, is_final, is_done}
use rmm_rxf_sys_de.Track.{Session, waiting, asking, max_wait_ms}
use rmm_rxf_sys_de.Track.Round.{
  Entry, Round, bulk_poll_batch, verdict, track_round, on_round, on_round_answer, on_round_failure,
  on_round_settled,
}
use rmm_rxf_sys_de.Track.Ledger.{
  Run, begins, fires, answers, fails, settles, ended_by, ids, held, failures, Says, Said,
  IsQuiet-Said, IsAccounted, count-ids, failures-append, all_ids, same_generation,
}

module _ (gen : ℕ) (entries : List Entry) where
  track_round-IsAccounted :
      (now : ℕ) (s : Session) (label : String)
      → s.generation ≡ gen
      → IsAccounted gen entries [] (track_round now s entries label)
  unfolding track_round
  track_round-IsAccounted now s label g = record {
    mine = g;
    given = refl;
    few = omega arith;
    still = λ due h. refl;
    all = λ p. omega arith;
    lost = refl;
    done = refl;
    quiet = λ h. refl;
    said = tt;
  }

  module _ (ended : List Entry) (r : Round) (v : IsAccounted gen entries ended r) where
    on_round-IsAccounted :
        (s : Session) (due : ℕ)
        → s.generation ≡ gen
        → r.phase ≡ waiting due
        → IsAccounted gen entries ended (on_round s r)
    unfolding on_round
    on_round-IsAccounted s due g w =
        let none_out = v.still due w in
        let calm = v.quiet (λ o. cc) in
        rw (same_generation r.gen s.generation (v.mine ∙ sym g)) (record {
          mine = v.mine;
          given = v.given;
          few = omega (arith, length-take bulk_poll_batch r.queue);
          still = λ due h. absurd cc;
          all = λ p. omega (
            arith,
            v.all p,
            ap (λ es. count p (ids es)) none_out,
            count-ids p (take bulk_poll_batch r.queue) (drop bulk_poll_batch r.queue),
            ap (λ es. count p (ids es)) (take-append-drop bulk_poll_batch r.queue),
          );
          lost = v.lost;
          done = v.done;
          quiet = λ h. calm;
          said = IsQuiet-Said r.toast entries ended _ calm;
        })

    on_round_failure-IsAccounted :
        (xs : List Entry) (e : Entry) (ys : List Entry)
        → r.phase ≡ asking
        → r.out ≡ xs ++ e ∷ ys
        → IsAccounted gen entries ended (on_round_failure xs e ys r)
    unfolding on_round_failure
    on_round_failure-IsAccounted xs e ys w o =
        let calm = v.quiet (λ o. cc) in
        record {
          mine = v.mine;
          given = v.given;
          few = omega (arith, v.few, ap length o, length-append xs (e ∷ ys), length-append xs ys);
          still = λ due h. absurd cc;
          all = λ p. back p;
          lost = v.lost;
          done = v.done;
          quiet = λ h. calm;
          said = IsQuiet-Said r.toast entries ended _ calm;
        }
      where
        back :
            (p : ℕ → Bool)
            → held p ended (record r { out = xs ++ ys; queue = r.queue ++ e ∷ [] })
              ≡ count p (ids entries)
        back p = omega (
          arith,
          v.all p,
          ap (λ es. count p (ids es)) o,
          count-ids p xs (e ∷ ys),
          count-ids p (e ∷ []) ys,
          count-ids p xs ys,
          count-ids p r.queue (e ∷ []),
        )

    on_round_answer-IsAccounted :
        (now : ℕ) (s : Session) (j : Job) (xs : List Entry) (e : Entry) (ys : List Entry)
        → s.generation ≡ gen
        → r.phase ≡ asking
        → r.out ≡ xs ++ e ∷ ys
        → j.id ≡ e.job.id
        → IsAccounted gen entries (ended ++ ended_by j e) (on_round_answer now s j xs e ys r).1
    unfolding on_round_answer
    on_round_answer-IsAccounted now s j xs e ys g w o same =
        let calm = v.quiet (λ o. cc) in
        let mine = same_generation r.gen s.generation (v.mine ∙ sym g) in
        let fewer : length (xs ++ ys) ≤ bulk_poll_batch =
          omega (arith, v.few, ap length o, length-append xs (e ∷ ys), length-append xs ys) in
        elim (Bool-cases (is_final j.status)) [
          | inr more ↦
              rw (mine, more, append-nil ended)
                (record {
                  mine = v.mine;
                  given = v.given;
                  few = fewer;
                  still = λ due h. absurd cc;
                  all = λ p. omega (
                    arith,
                    v.all p,
                    ap (λ es. count p (ids es)) o,
                    count-ids p xs (e ∷ ys),
                    count-ids p (e ∷ []) ys,
                    count-ids p xs ys,
                    count-ids p r.queue (e ∷ []),
                  );
                  lost = v.lost;
                  done = v.done;
                  quiet = λ h. calm;
                  said = IsQuiet-Said r.toast entries ended _ calm;
                })
          | inl final ↦
              let last : Entry = record { job = j; device_name = e.device_name } in
              rw (mine, final)
                (record {
                  mine = v.mine;
                  given = v.given;
                  few = fewer;
                  still = λ due h. absurd cc;
                  all = λ p. omega (
                    arith,
                    v.all p,
                    ap (λ es. count p (ids es)) o,
                    count-ids p xs (e ∷ ys),
                    count-ids p (e ∷ []) ys,
                    count-ids p xs ys,
                    count-ids p ended (last ∷ []),
                    ap (λ id. count p (id ∷ [])) same,
                  );
                  lost = kept (is_done j.status) last refl;
                  done = omega (arith, v.done, length-append ended (last ∷ []));
                  quiet = λ h. calm;
                  said = IsQuiet-Said r.toast entries _ _ calm;
                })
        ]
      where
        kept :
            (b : Bool) (last : Entry)
            → is_done last.job.status ≡ b
            → r.failed ++ (if b then [] else last ∷ []) ≡ failures (ended ++ last ∷ [])
        kept true last h =
            append-nil r.failed
            ∙ v.lost
            ∙ sym (failures-append ended (last ∷ []) ∙ rw (h) (append-nil (failures ended)))
        kept false last h =
            ap (λ es. es ++ last ∷ []) v.lost
            ∙ sym (failures-append ended (last ∷ []) ∙ rw (h) refl)

    verdict-Says :
        (label : String) (n : ℕ) (failed : List Entry) (r' : Round)
        → failures ended ≡ failed
        → length ended ≡ length entries
        → Says (verdict label n failed).kind entries ended r'
    verdict-Says label n [] r' f all = (all, f)
    verdict-Says label n (d ∷ ds) r' f all = (all, rw (f) (omega arith))

    on_round_settled-IsAccounted :
        (now : ℕ) (s : Session)
        → s.generation ≡ gen
        → r.phase ≡ asking
        → r.out ≡ []
        → IsAccounted gen entries ended (on_round_settled now s r)
    unfolding on_round_settled
    on_round_settled-IsAccounted now s g w none_out =
        let mine = same_generation r.gen s.generation (v.mine ∙ sym g) in
        elim (Bool-cases (length r.queue == 0)) [
          | inl empty ↦
              rw (mine, empty)
                (record {
                  mine = v.mine;
                  given = v.given;
                  few = v.few;
                  still = λ due h. absurd cc;
                  all = v.all;
                  lost = v.lost;
                  done = v.done;
                  quiet = λ h. absurd (h refl);
                  said =
                      verdict-Says r.label (length r.entries) r.failed _ (sym v.lost)
                        (whole (ground arith));
                })
          | inr more ↦ elim (Bool-cases (leb max_wait_ms (now - r.started))) [
            | inl late ↦
                rw (mine, more, late)
                  (record {
                    mine = v.mine;
                    given = v.given;
                    few = v.few;
                    still = λ due h. absurd cc;
                    all = v.all;
                    lost = v.lost;
                    done = v.done;
                    quiet = λ h. absurd (h refl);
                    said = ground arith;
                  })
            | inr early ↦
                rw (mine, more, early)
                  (record {
                    mine = v.mine;
                    given = v.given;
                    few = v.few;
                    still = λ due h. none_out;
                    all = v.all;
                    lost = v.lost;
                    done = v.done;
                    quiet = λ h. refl;
                    said = tt;
                  })
          ]
        ]
      where
        whole : length r.queue ≡ 0 → length ended ≡ length entries
        whole h = omega (
          arith,
          v.all (λ id. true),
          all_ids r.queue,
          all_ids r.out,
          all_ids ended,
          all_ids entries,
          ap length none_out,
          h,
        )

  Run-IsAccounted :
      {ended : List Entry} {r : Round} → Run gen entries ended r → IsAccounted gen entries ended r
  Run-IsAccounted (begins now s label g) = track_round-IsAccounted now s label g
  Run-IsAccounted (fires s due run g w) = on_round-IsAccounted _ _ (Run-IsAccounted run) s due g w
  Run-IsAccounted (answers now s j xs e ys run g w o same) =
      on_round_answer-IsAccounted _ _ (Run-IsAccounted run) now s j xs e ys g w o same
  Run-IsAccounted (fails xs e ys run w o) =
      on_round_failure-IsAccounted _ _ (Run-IsAccounted run) xs e ys w o
  Run-IsAccounted (settles now s run g w o) =
      on_round_settled-IsAccounted _ _ (Run-IsAccounted run) now s g w o

-- As long as its account is signed in a round has at most six requests out, and holds every one of
-- its jobs as often as it was given: waiting, asked for, or with its final answer. Its failures are
-- exactly the final answers whose job is not done. Its toast says that all went well only when there
-- are as many final answers as jobs and none failed, that some failed only when there are as many
-- and one failed, and that some are without a result only when one is.
pub rounds_account :
    (gen : ℕ) (entries ended : List Entry) (r : Round) (p : ℕ → Bool)
    → Run gen entries ended r
    → (length r.out ≤ bulk_poll_batch)
      × (held p ended r ≡ count p (ids entries))
      × (r.failed ≡ failures ended)
      × Said r.toast entries ended r
rounds_account gen entries ended r p run =
    let v = Run-IsAccounted gen entries run in (v.few, v.all p, v.lost, v.said)
