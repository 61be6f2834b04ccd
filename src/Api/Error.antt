-- ===== src/Api/Error.antt =====
-- The message of a failed request: frontend/src/api/client.ts, lines 62 to 69 and 232 to 254.
use rmm_rxf_sys_de.Base.{ℕ, Bool, String, Option, none, some, [], ◌∷◌, str_eq, if◌then◌else◌}
use rmm_rxf_sys_de.Base.Text.{decimal, parts}
use rmm_rxf_sys_de.Api.Json.{Json, str, arr, field}
use rmm_rxf_sys_de.Api.Issue.{validation_message}

-- What a request can throw: an answer of the server that is no success, the error of `fetch` when
-- the network or the server is gone, another `Error`, or anything else.
pub data Thrown : Type 0 where
  api_error : ℕ → String → Thrown
  type_error : Thrown
  plain_error : String → Thrown
  anything : Thrown

abbrev pub status_text : ℕ → String
status_text status = parts ("Fehler " ∷ decimal status ∷ [])

-- `t || fallback`
abbrev pub or_text : String → String → String
or_text t fallback = if str_eq t "" then fallback else t

-- `parse` stands for `JSON.parse`, `none` where it throws; the other parameters are those of the
-- violations. The message is `none` where a `String(v)` throws.
module _ {N : Type 0} (plain local : N → String) (is_one : N → Bool)
    (other : Json N → Option String) (parse : String → Option (Json N)) where
  abbrev pub detail_text : ℕ → Option (Json N) → Option String
  detail_text status (some (str s)) = some (or_text s (status_text status))
  detail_text status (some (arr vs)) = validation_message plain local is_one other vs
  detail_text status _ = some (status_text status)

  abbrev pub body_text : ℕ → String → Option (Json N) → Option String
  body_text status body none = some (or_text body (status_text status))
  body_text status body (some parsed) = detail_text status (field "detail" parsed)

  unfoldable pub api_error_message : Thrown → Option String
  api_error_message type_error = some "Server nicht erreichbar"
  api_error_message (api_error status body) = body_text status body (parse body)
  api_error_message (plain_error message) = some message
  api_error_message anything = some "Unbekannter Fehler"
