-- ===== src/Alerts/Ack.antt =====
-- What an acknowledgement still has to send: frontend/src/pages/alerts/alertList.ts, lines 177 to
-- 209.
use mathlib.Core.List.{append-nil, append_assoc}
use rmm_rxf_sys_de.Base.{
  ℕ, ◌+◌, ◌≡◌, sym, Bool, true, false, Option, none, some, List, [], ◌∷◌, ◌++◌, arith, length, any,
  filter, not, ◌&&◌, length-append, ◌==◌, if◌then◌else◌,
}
use rmm_rxf_sys_de.Fleet.Types.{Alert}
use rmm_rxf_sys_de.Alerts.Tabs.{offen, quittiert, behoben, tab_of}

-- `AckSkipped`, with the alerts still to send.
pub record AckRound : Type 0 where
  pub send : List Alert
  pub acked : ℕ
  pub resolved : ℕ

-- `new Map(current.map((a) => [a.id, a])).get(id)`: a later alert with the id replaces an earlier.
unfoldable pub by_id : List Alert → ℕ → Option Alert
by_id [] id = none
by_id (a ∷ current) id = elim (by_id current id) [
  | some later ↦ some later
  | none ↦ if a.id == id then some a else none
]

abbrev pub has : List ℕ → ℕ → Bool
has in_flight id = any (λ x. x == id) in_flight

-- One turn of the loop over the named alerts.
unfoldable pub sort_in : Option Alert → Bool → Alert → AckRound → AckRound
sort_in none running a out = record out { resolved = out.resolved + 1 }
sort_in (some now) running a out = elim (tab_of now) [
  | behoben ↦ record out { resolved = out.resolved + 1 }
  | quittiert ↦ record out { acked = out.acked + 1 }
  | offen ↦
      if running
      then record out { acked = out.acked + 1 }
      else record out { send = out.send ++ a ∷ [] }
]

unfoldable pub sort_in_all : List Alert → List Alert → List ℕ → AckRound → AckRound
sort_in_all [] current in_flight out = out
sort_in_all (a ∷ named) current in_flight out =
    sort_in_all named current in_flight (sort_in (by_id current a.id) (has in_flight a.id) a out)

unfoldable pub still_to_ack : List Alert → List Alert → List ℕ → AckRound
still_to_ack named current in_flight =
    sort_in_all named current in_flight (record { send = []; acked = 0; resolved = 0 })

abbrev is_open : Option Alert → Bool
is_open none = false
is_open (some a) = elim (tab_of a) [ offen ↦ true | _ ↦ false ]

module _ (current : List Alert) (in_flight : List ℕ) where
  -- In its present version the alert is open, and no acknowledgement of it is running.
  abbrev pub is_sendable : Alert → Bool
  is_sendable a = is_open (by_id current a.id) && not (has in_flight a.id)

  sort_in_all-send :
      (named : List Alert) (out : AckRound)
      → (sort_in_all named current in_flight out).send ≡ out.send ++ filter is_sendable named
  unfolding sort_in_all sort_in
  sort_in_all-send [] out = sym (append-nil out.send)
  sort_in_all-send (a ∷ named) out = ground (
    arith,
    sort_in_all-send named (sort_in (by_id current a.id) (has in_flight a.id) a out),
    append_assoc out.send (a ∷ []) (filter is_sendable named),
  )

  sort_in_all-length :
      (named : List Alert) (out : AckRound)
      → length (sort_in_all named current in_flight out).send
          + (sort_in_all named current in_flight out).acked
          + (sort_in_all named current in_flight out).resolved
        ≡ length out.send + out.acked + out.resolved + length named
  unfolding sort_in_all sort_in
  sort_in_all-length [] out = omega arith
  sort_in_all-length (a ∷ named) out = ground (
    arith,
    length-append out.send (a ∷ []),
    sort_in_all-length named (sort_in (by_id current a.id) (has in_flight a.id) a out),
  )

  -- Of the alerts that a confirmation named, those are sent that are open in their present version
  -- and whose own acknowledgement is not running, in their order; each of the others is counted as
  -- acknowledged or as resolved meanwhile, once.
  pub still_to_ack_lem :
      (named : List Alert)
      → ((still_to_ack named current in_flight).send ≡ filter is_sendable named)
        × (length (still_to_ack named current in_flight).send
              + (still_to_ack named current in_flight).acked
              + (still_to_ack named current in_flight).resolved
            ≡ length named)
  unfolding still_to_ack
  still_to_ack_lem named =
      let none_yet : AckRound = record { send = []; acked = 0; resolved = 0 } in
      (sort_in_all-send named none_yet, omega (arith, sort_in_all-length named none_yet))
