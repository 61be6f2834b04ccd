-- ===== src/Alerts/ListState.antt =====
-- What a dialog names of a long list, and why a list is empty:
-- frontend/src/pages/alerts/alertList.ts, lines 133 to 160.
use rmm_rxf_sys_de.Base.{
  ℕ, ◌+◌, ◌-◌, ◌≤◌, ◌≡◌, ◌≢◌, refl, ap, ◌∙◌, ◌∷◌, Bool, List, [], arith, length, take, length-take,
  leb, ltb, Bool-cases, inl, inr, ◌<◌, Option, none, some, if◌then◌else◌,
}

-- `{ head, rest }` of `preview`
pub record Preview (A : Type 0) : Type 0 where
  pub head : List A
  pub rest : ℕ

pub data ListState : Type 0 where
  loading failed ready : ListState

pub data QueryStatus : Type 0 where
  pending error success : QueryStatus

-- The cache entry: its status, and whether it holds data.
pub record Cached : Type 0 where
  pub status : QueryStatus
  pub has_data : Bool

module _ {A : Type 0} where
  unfoldable pub preview : List A → ℕ → Preview A
  preview list n =
      if leb (length list) (n + 1)
      then record { head = list; rest = 0 }
      else record { head = take n list; rest = length list - n }

  take-length : (list : List A) → take (length list) list ≡ list
  take-length [] = refl
  take-length (a ∷ list) = ap (◌∷◌ a) (take-length list)

  take-take-length :
      (list : List A) (n : ℕ) → n ≤ length list → take (length (take n list)) list ≡ take n list
  take-take-length list n h = ap (λ k. take k list) (length-take n list ∙ omega arith)

  -- A preview is the front of the list, names one alert more than asked for at most, and counts
  -- exactly those it leaves out, of which there are none or at least two.
  pub preview_lem :
      (list : List A) (n : ℕ)
      → (take (length (preview list n).head) list ≡ (preview list n).head)
        × (length (preview list n).head ≤ n + 1)
        × (length (preview list n).head + (preview list n).rest ≡ length list)
        × ((preview list n).rest ≢ 1)
  unfolding preview
  preview_lem list n = elim (Bool-cases (leb (length list) (n + 1))) [
    | inl h ↦ rw h (take-length list, ground arith, omega arith, omega arith)
    | inr h ↦
        let long : n + 1 < length list = ground arith in
        rw h (
          take-take-length list n (omega (arith, long)),
          omega (arith, length-take n list, long),
          omega (arith, length-take n list, long),
          omega (arith, long),
        )
  ]

unfoldable pub list_state : ℕ → ℕ → Option Cached → ListState
list_state alerts devices none =
    if ltb 0 alerts then ready else (if ltb 0 devices then ready else loading)
list_state alerts devices (some cached) =
    if ltb 0 alerts
    then ready
    else (if cached.has_data then ready else elim cached.status [ error ↦ failed | _ ↦ loading ])
