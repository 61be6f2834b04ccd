-- ===== src/Enroll.antt =====
-- Connecting a device: frontend/src/shell/enroll/enrollCommands.ts.
pub mod Quoting
mod Tests
use Prim.Native.Char.{code}
use Prim.Native.String
use rmm_rxf_sys_de.Base.{ℕ, ◌==◌, String, Option, none, some, [], ◌∷◌, str_eq, if◌then◌else◌}
use rmm_rxf_sys_de.Base.Text.{parts}

pub data AgentPlatform : Type 0 where
  windows linux darwin : AgentPlatform

abbrev pub platform_text : AgentPlatform → String
platform_text windows = "windows"
platform_text linux = "linux"
platform_text darwin = "darwin"

abbrev pub windows_agent_path : String
windows_agent_path = "/api/agent/setup/download/windows-amd64"

-- `s.replace(/'/g, '%27')`
unfoldable pub escaped : String → String
escaped String.[] = ""
escaped (String.◌∷◌ c s) =
    let rest = escaped s in if code c == 39 then String.◌++◌ "%27" rest else String.◌∷◌ c rest

-- `encode` stands for `encodeURIComponent`.
module _ (encode : String → String) where
  unfoldable pub encode_label : String → String
  encode_label label = escaped (encode label)

  abbrev label_query : Option String → String
  label_query none = ""
  label_query (some label) =
      if str_eq label "" then "" else parts ("?label=" ∷ encode_label label ∷ [])

  -- `label` is `none` where it is not given.
  unfoldable pub setup_url : AgentPlatform → (origin : String) → Option String → String
  setup_url platform origin label =
      parts (origin ∷ "/api/agent/setup/" ∷ platform_text platform ∷ label_query label ∷ [])

  unfoldable pub install_command : AgentPlatform → (origin token : String) → Option String → String
  install_command windows origin token label = parts (
      "irm -Headers @{'X-Enroll-Token'='"
      ∷ token
      ∷ "'} '"
      ∷ setup_url windows origin label
      ∷ "' | iex"
      ∷ [])
  install_command p origin token label = parts (
      "curl -fsSL -H 'X-Enroll-Token: "
      ∷ token
      ∷ "' '"
      ∷ setup_url p origin label
      ∷ "' | sudo bash"
      ∷ [])

unfoldable pub download_command : (origin token : String) → String
download_command origin token = parts (
    "irm -Headers @{'X-Enroll-Token'='" ∷ token ∷ "'} '" ∷ origin ∷ windows_agent_path
    ∷ "' -OutFile $env:TEMP\\rmm-agent.exe" ∷ [])

pub record TokenRequest : Type 0 where
  pub label : String
  pub ttl_hours : Option ℕ

-- `trim` stands for the method of texts; `none` sends no `ttl_hours`.
unfoldable pub token_request : (trim : String → String) → String → Option ℕ → TokenRequest
token_request trim label hours = record { label = trim label; ttl_hours = hours }
