-- ===== src/Api/Tests.antt =====
-- Failures of requests and sign-ins at concrete answers: frontend/src/api/client.ts and
-- frontend/src/pages/login/loginError.ts.
use rmm_rxf_sys_de.Base.{
  ℕ, ◌≡◌, ◌⊎◌, refl, Bool, true, String, Option, none, some, str_eq, if◌then◌else◌, ◌==◌,
}
use rmm_rxf_sys_de.Base.Text.{decimal}
use rmm_rxf_sys_de.Api.Json.{field, Json, str, arr, obj, num, no_items, item, no_fields, entry}
use rmm_rxf_sys_de.Api.Error.{Thrown, api_error, plain_error, api_error_message}
use rmm_rxf_sys_de.Api.Laws.{says, api_error_message_lem}
use rmm_rxf_sys_de.Api.Login.{LoginStep, LoginFailure, describe_login_failure}

-- Numbers are natural here, and any text but these two is no JSON.
abbrev one : ℕ → Bool
one n = n == 1

abbrev other : Json ℕ → Option String
other v = none

-- A violation with the greatest length in its context.
abbrev too_long : Json ℕ
too_long = obj (
    entry "type" (str "string_too_long")
      (entry "ctx" (obj (entry "max_length" (num 8) no_fields)) no_fields))

abbrev parse : String → Option (Json ℕ)
parse t =
    if str_eq t "{}"
    then some (obj (entry "detail" (arr (item too_long no_items)) no_fields))
    else (if str_eq t "{.}"
        then some (obj (entry "detail" (str "Code ungültig") no_fields))
        else none)

abbrev rejected : Thrown
rejected = api_error 422 "{}"

abbrev wrong_code : Thrown
wrong_code = api_error 401 "{.}"

api_error_message_example :
    (says (api_error_message decimal decimal one other parse rejected) ≡ true)
    ⊎ (rejected ≡ plain_error "")
unfolding field
api_error_message_example = api_error_message_lem decimal decimal one other parse rejected refl

abbrev failure_of : LoginStep → Option LoginFailure
failure_of step = describe_login_failure decimal decimal one other parse wrong_code step
