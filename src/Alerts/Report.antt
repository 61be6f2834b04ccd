-- ===== src/Alerts/Report.antt =====
-- What a round of acknowledgements achieved: frontend/src/pages/alerts/alertList.ts, lines 162 to
-- 175 and 211 to 268.
use rmm_rxf_sys_de.Base.{
  ℕ, ◌+◌, ◌<◌, ◌≡◌, refl, ◌⊎◌, Bool, true, false, String, Option, none, some, List, [], ◌∷◌, ◌++◌,
  arith, length, count, any, any-count, all, filter, ltb, ◌==◌, ◌&&◌, if◌then◌else◌,
}
use rmm_rxf_sys_de.Base.Text.{decimal, parts, join}
use rmm_rxf_sys_de.Fleet.Types.{Alert}
use rmm_rxf_sys_de.Bulk.Run.{Failure}

-- What a request can throw: an answer of the server with its status, or anything else.
pub data Thrown : Type 0 where
  api_error : ℕ → Thrown
  other_error : Thrown

pub data AckFailure : Type 0 where
  gone denied error : AckFailure

unfoldable pub ack_failure : Thrown → AckFailure
ack_failure (api_error status) =
    if status == 404 then gone else (if status == 403 then denied else error)
ack_failure other_error = error

pub record AckSkipped : Type 0 where
  pub acked : ℕ
  pub resolved : ℕ

pub data Tone : Type 0 where
  success info warning error : Tone

pub record AckReport : Type 0 where
  pub tone : Tone
  pub title : String
  pub detail : Option String
  pub error : Option Thrown

abbrev pub is_gone : Failure Alert Thrown → Bool
is_gone f = elim (ack_failure f.error) [ gone ↦ true | _ ↦ false ]

abbrev pub is_denied : Failure Alert Thrown → Bool
is_denied f = elim (ack_failure f.error) [ denied ↦ true | _ ↦ false ]

abbrev pub is_broken : Failure Alert Thrown → Bool
is_broken f = elim (ack_failure f.error) [ error ↦ true | _ ↦ false ]

unfoldable pub was : ℕ → String
was n = parts (decimal n ∷ " " ∷ (if n == 1 then "war" else "waren") ∷ [])

abbrev meanwhile_of : ℕ → ℕ → Option String
meanwhile_of acked resolved =
    let notes =
      (if ltb 0 acked then parts (was acked ∷ " schon quittiert" ∷ []) ∷ [] else [])
      ++ (if ltb 0 resolved then parts (was resolved ∷ " inzwischen behoben" ∷ []) ∷ [] else []) in
    if ltb 0 (length notes) then some (parts (join ", " notes ∷ "." ∷ [])) else none

abbrev not_acked : Bool → ℕ → ℕ → String
not_acked one n total =
    if one
    then "Nicht quittiert"
    else parts (decimal n ∷ " von " ∷ decimal total ∷ " nicht quittiert" ∷ [])

abbrev first_error : List (Failure Alert Thrown) → Option Thrown
first_error [] = none
first_error (f ∷ failed) = some f.error

-- `single ? describe(outcome.ok[0]!) : undefined`
abbrev described : Bool → (Alert → String) → List Alert → Option String
described single describe [] = none
described single describe (a ∷ ok) = if single then some (describe a) else none

abbrev or_text : Option String → Option String → Option String
or_text none b = b
or_text (some a) b = some a

unfoldable pub ack_report :
    List Alert → List (Failure Alert Thrown) → (Alert → String) → AckSkipped → AckReport
ack_report ok failed describe skipped =
    let total = length ok + length failed in
    let one = total == 1 in
    let single = one && skipped.acked + skipped.resolved == 0 in
    let resolved = count is_gone failed + skipped.resolved in
    let meanwhile = meanwhile_of skipped.acked resolved in
    let refused = count is_denied failed in
    let broken = filter is_broken failed in
    if ltb 0 (length broken)
    then record {
      tone = Tone.error;
      title = not_acked one (length broken) total;
      detail = none;
      error = first_error broken;
    }
    else (if ltb 0 refused
        then record {
          tone = warning;
          title = not_acked one refused total;
          detail = some (
              if refused == 1
              then "Für dieses Gerät fehlt die Berechtigung."
              else "Für diese Geräte fehlt die Berechtigung.");
          error = none;
        }
        else (if length ok == 0
            then (if single
                then record {
                  tone = info;
                  title = "Alarm ist nicht mehr offen";
                  detail = some "Er wurde inzwischen behoben.";
                  error = none;
                }
                else record {
                  tone = info;
                  title = "Keiner der Alarme ist mehr offen";
                  detail =
                      if ltb 0 skipped.acked
                      then meanwhile
                      else some "Sie wurden inzwischen behoben.";
                  error = none;
                })
            else record {
              tone = success;
              title =
                  if length ok == 1
                  then "Alarm quittiert"
                  else parts (decimal (length ok) ∷ " Alarme quittiert" ∷ []);
              detail = or_text meanwhile (described single describe ok);
              error = none;
            }))

none_gone :
    (failed : List (Failure Alert Thrown))
    → any is_broken failed ≡ false
    → any is_denied failed ≡ false
    → all is_gone failed ≡ true
none_gone [] h k = refl
none_gone (f ∷ failed) h k = ground (arith, none_gone failed)

-- The worst failure sets the tone: an error if a request failed for another reason than 404 or 403,
-- else a warning if one was refused by a 403. A 404 alone, of an alert that cleared meanwhile, is no
-- failure: then the round is a success if an alert was acknowledged, and else only informs.
pub tone-ack_report :
    (ok : List Alert) (failed : List (Failure Alert Thrown)) (describe : Alert → String)
    (skipped : AckSkipped)
    → (any is_broken failed ≡ true) × ((ack_report ok failed describe skipped).tone ≡ Tone.error)
      ⊎ (any is_broken failed ≡ false)
        × (any is_denied failed ≡ true)
        × ((ack_report ok failed describe skipped).tone ≡ warning)
      ⊎ (all is_gone failed ≡ true)
        × (0 < length ok)
        × ((ack_report ok failed describe skipped).tone ≡ success)
      ⊎ (all is_gone failed ≡ true)
        × (length ok ≡ 0)
        × ((ack_report ok failed describe skipped).tone ≡ info)
unfolding ack_report
tone-ack_report ok failed describe skipped =
    ground (arith, any-count is_broken failed, any-count is_denied failed, none_gone failed)
