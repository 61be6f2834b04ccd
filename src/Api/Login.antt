-- ===== src/Api/Login.antt =====
-- A failed sign-in: frontend/src/pages/login/loginError.ts.
use mathlib.Core.Option.{map}
use rmm_rxf_sys_de.Base.{
  Bool-cases, ℕ, ◌≡◌, inl, inr, refl, Bool, true, false, not, ◌&&◌, ◌||◌, String, Option, [], ◌∷◌,
  str_eq, leb, ◌==◌, arith, if◌then◌else◌,
}
use rmm_rxf_sys_de.Base.Text.{decimal, parts}
use rmm_rxf_sys_de.Base.Empty.{is_empty, is_empty-append, is_empty-eq}
use rmm_rxf_sys_de.Api.Json.{Json}
use rmm_rxf_sys_de.Api.Error.{
  Thrown, api_error, type_error, plain_error, anything, api_error_message,
}

abbrev pub totp_required : String
totp_required = "totp_required"

abbrev pub code_rejected : String
code_rejected = "Code ungültig"

pub data LoginStep : Type 0 where
  credentials code : LoginStep

pub data Kind : Type 0 where
  credentials code throttled unreachable other : Kind

pub data LoginFailure : Type 0 where
  second_factor : LoginFailure
  failure : Kind → String → LoginFailure

-- `GATEWAY_DOWN.has(status)`
abbrev pub gateway_down : ℕ → Bool
gateway_down status = status == 502 || (status == 503 || status == 504)

abbrev unreachable_text : String
unreachable_text = "Server nicht erreichbar — Netzwerk prüfen und erneut versuchen."

abbrev refused : LoginStep → String → LoginFailure
refused LoginStep.credentials detail =
    failure Kind.credentials "Benutzername oder Passwort stimmt nicht."
refused LoginStep.code detail =
    if str_eq detail code_rejected
    then failure Kind.code
        "Der Code stimmt nicht. Einen neuen Code aus der App nehmen oder einen Backup-Code verwenden."
    else failure Kind.credentials
        "Benutzername oder Passwort wird nicht mehr angenommen. Erneut anmelden."

abbrev said : String → LoginFailure
said detail = failure other (if str_eq detail "" then "Anmeldung fehlgeschlagen." else detail)

abbrev server_text : ℕ → String
server_text status =
    parts (
      "Der Server hat einen Fehler gemeldet ("
      ∷ decimal status
      ∷ "). Später erneut versuchen."
      ∷ [])

abbrev of_status : ℕ → LoginStep → String → LoginFailure
of_status status step detail =
    if gateway_down status
    then failure unreachable unreachable_text
    else (if status == 429
        then failure throttled
            "Zu viele Fehlversuche von dieser Adresse. Die Anmeldung ist für einige Minuten gesperrt."
        else (if status == 401
            then refused step detail
            else (if status == 422
                then failure other "Die Eingabe hat ein ungültiges Format."
                else (if leb 500 status then failure other (server_text status) else said detail))))

abbrev described : Thrown → LoginStep → String → LoginFailure
described type_error step detail = failure unreachable unreachable_text
described (api_error status body) step detail = of_status status step detail
described (plain_error message) step detail = said detail
described anything step detail = said detail

abbrev pub failed_as : Kind → LoginFailure → Bool
failed_as k second_factor = false
failed_as k (failure j message) = rank j == rank k
  where
    rank : Kind → ℕ
    rank Kind.credentials = 0
    rank Kind.code = 1
    rank throttled = 2
    rank unreachable = 3
    rank other = 4

-- A failure that is no request for the second factor, without a word to the user.
abbrev pub is_silent : LoginFailure → Bool
is_silent second_factor = false
is_silent (failure k message) = is_empty message

abbrev pub is_second_factor : LoginFailure → Bool
is_second_factor second_factor = true
is_second_factor (failure k message) = false

abbrev pub has_status : ℕ → Thrown → Bool
has_status n (api_error status body) = status == n
has_status n _ = false

abbrev pub no_server : Thrown → Bool
no_server type_error = true
no_server (api_error status body) = gateway_down status
no_server _ = false

server-text : (status : ℕ) → is_empty (server_text status) ≡ false
server-text status =
    is_empty-append "Der Server hat einen Fehler gemeldet ("
      (parts (decimal status ∷ "). Später erneut versuchen." ∷ []))

if-not_silent :
    (b : Bool) (f : LoginFailure)
    → is_silent f ≡ false
    → is_silent (if b then second_factor else f) ≡ false
if-not_silent true f h = refl
if-not_silent false f h = h

-- What the form does once the message of the failure is known.
unfoldable pub login_failure : Thrown → LoginStep → String → LoginFailure
login_failure e step detail =
    if str_eq detail totp_required then second_factor else described e step detail

-- The parameters are those of `api_error_message`; `none` where that throws.
module _ {N : Type 0} (plain local : N → String) (is_one : N → Bool)
    (other_value : Json N → Option String) (parse : String → Option (Json N)) where
  unfoldable pub describe_login_failure : Thrown → LoginStep → Option LoginFailure
  describe_login_failure e step =
      map (login_failure e step) (api_error_message plain local is_one other_value parse e)

-- The server asks for the code of the second factor.
abbrev pub wants_code : String → Bool
wants_code detail = str_eq detail totp_required

abbrev pub rejects_code : LoginStep → String → Bool
rejects_code LoginStep.credentials detail = false
rejects_code LoginStep.code detail = str_eq detail code_rejected

abbrev pub KindsOf : Thrown → LoginStep → String → Type 0
KindsOf e step detail =
    (is_second_factor (login_failure e step detail) ≡ wants_code detail)
    × (failed_as unreachable (login_failure e step detail)
        ≡ (not (wants_code detail) && no_server e))
    × (failed_as throttled (login_failure e step detail)
        ≡ (not (wants_code detail) && has_status 429 e))
    × (failed_as Kind.code (login_failure e step detail)
        ≡ (not (wants_code detail) && (has_status 401 e && rejects_code step detail)))
    × (failed_as Kind.credentials (login_failure e step detail)
        ≡ (not (wants_code detail) && (has_status 401 e && not (rejects_code step detail))))

kinds : (e : Thrown) (step : LoginStep) (detail : String) → KindsOf e step detail
unfolding login_failure
kinds type_error step detail = ground arith
kinds (api_error status body) LoginStep.credentials detail = ground arith
kinds (api_error status body) LoginStep.code detail = ground arith
kinds (plain_error message) step detail = ground arith
kinds anything step detail = ground arith

said-not_silent : (detail : String) → is_silent (said detail) ≡ false
said-not_silent detail = elim (Bool-cases (str_eq detail "")) [
  | inl empty ↦ rw (empty) refl
  | inr told ↦ rw (told) (ground (arith, is_empty-eq detail))
]

status-not_silent :
    (status : ℕ) (step : LoginStep) (detail : String)
    → is_silent (of_status status step detail) ≡ false
status-not_silent status LoginStep.credentials detail =
    ground (arith, said-not_silent detail, server-text status)
status-not_silent status LoginStep.code detail =
    ground (arith, said-not_silent detail, server-text status)

told-not_silent :
    (e : Thrown) (step : LoginStep) (detail : String) → is_silent (described e step detail) ≡ false
told-not_silent type_error step detail = refl
told-not_silent (api_error status body) step detail = status-not_silent status step detail
told-not_silent (plain_error message) step detail = said-not_silent detail
told-not_silent anything step detail = said-not_silent detail

not_silent :
    (e : Thrown) (step : LoginStep) (detail : String)
    → is_silent (login_failure e step detail) ≡ false
unfolding login_failure
not_silent e step detail =
    if-not_silent (wants_code detail) (described e step detail) (told-not_silent e step detail)

-- What the form does follows from the failure: it asks for the code if the server wants one; else
-- it blames the network if there is no server or only its proxy, the number of attempts after a
-- 429, and after a 401 the code, if that was asked for and the server says so, or the password. In
-- every case but the first it has something to say.
pub login_failure-kinds :
    (e : Thrown) (step : LoginStep) (detail : String)
    → KindsOf e step detail × (is_silent (login_failure e step detail) ≡ false)
login_failure-kinds e step detail = (kinds e step detail, not_silent e step detail)
