-- ===== src/Patches/Actions/Rounds.antt =====
-- One round at a time, and every device of it once: frontend/src/pages/patches/PatchesPage.tsx, lines
-- 402 to 515.
use rmm_rxf_sys_de.Base.{
  ℕ, ◌≤◌, ◌≡◌, refl, ap, ◌∙◌, Bool, true, false, not, ◌&&◌, ltb, String, is_some, List, [], ◌∷◌,
  filter, count, length, All, arith,
}
use rmm_rxf_sys_de.Fleet.Types.{Device}
use rmm_rxf_sys_de.Bulk.Run.Complete.{Steps-IsValid, start-IsValid}
use rmm_rxf_sys_de.Bulk.Selection.{partition_lem, passes}
use rmm_rxf_sys_de.Patches.Orders.{rules, Order, Round}
use rmm_rxf_sys_de.Patches.Actions.{Desk, opened, workers}
use rmm_rxf_sys_de.Patches.Actions.Steps.{Reach, IsRound, Reach-IsValid}

-- The device may have what the order asks for.
abbrev pub Wanted : Order → Device → Type 0
Wanted o d = passes (rules o.work o.summary) d ≡ true

refused_of : Order → Device → Bool
refused_of o d = not (passes (rules o.work o.summary) d)

none_refused : (o : Order) (ds : List Device) → count (refused_of o) ds ≡ 0 → All (Wanted o) ds
unfolding refused_of
none_refused o [] h = tt
none_refused o (d ∷ ds) h = (ground arith, none_refused o ds (ground arith))

filter_refused :
    (o : Order) (ds : List Device)
    → count (refused_of o) (filter (passes (rules o.work o.summary)) ds) ≡ 0
unfolding refused_of
filter_refused o [] = refl
filter_refused o (d ∷ ds) = ground (arith, filter_refused o ds)

planned-targets :
    (r : Round)
    → IsRound r
    → r.order.plan.targets ≡ filter (passes (rules r.order.work r.order.summary)) r.order.list
planned-targets r v =
    ap (λ p. p.targets) v.planned
    ∙ (partition_lem r.order.list (rules r.order.work r.order.summary)).0

out-Wanted : (r : Round) → IsRound r → All (Wanted r.order) r.bulk.running
out-Wanted r v =
    let kept =
      (Steps-IsValid workers r.order.plan.targets v.run
          (start-IsValid workers r.order.plan.targets)).kept
        (refused_of r.order) in
    let none : count (refused_of r.order) r.order.plan.targets ≡ 0 =
      ap (count (refused_of r.order)) (planned-targets r v) ∙ filter_refused r.order r.order.list in
    none_refused r.order r.bulk.running (omega arith)

all_out-Wanted :
    (rounds : List Round)
    → All IsRound rounds
    → All (λ (r : Round). All (Wanted r.order) r.bulk.running) rounds
all_out-Wanted [] h = tt
all_out-Wanted (r ∷ rounds) (v, h) = (out-Wanted r v, all_out-Wanted rounds h)

-- Whatever is pressed and answered and however the calls end, at most one round of calls runs, the
-- buttons are busy exactly while one does, no dialog is open then, and a call is out only for a
-- device that the action applies to: a connected one for a scan, a connected one with open security
-- updates for an installation, one with open updates for the queue.
pub one_round :
    (fmt : ℕ → String) (s : Desk)
    → Reach fmt opened s
    → (length s.rounds ≤ 1)
      × (s.busy ≡ ltb 0 (length s.rounds))
      × ((is_some s.asking && s.busy) ≡ false)
      × All (λ (r : Round). All (Wanted r.order) r.bulk.running) s.rounds
one_round fmt s reach =
    let v = Reach-IsValid fmt reach in
    (ground (arith, v.one), ground (arith, v.one), v.idle, all_out-Wanted s.rounds v.sound)
