-- ===== src/Software.antt =====
-- Programs that install with one click: frontend/src/softwareCatalog.ts.
pub mod Quoting
mod Tests
use Prim.Native.Char.{Char, code}
use Prim.Native.String
use rmm_rxf_sys_de.Base.{
  ℕ, Bool, true, false, ◌&&◌, ◌||◌, ◌==◌, leb, String, Option, none, some, List, [], ◌∷◌, ◌++◌,
  str_eq, if◌then◌else◌,
}
use rmm_rxf_sys_de.Base.Text.{parts, join}

pub data SoftwareCategory : Type 0 where
  browser office tools dev remote : SoftwareCategory

pub record SoftwarePreset : Type 0 where
  pub id : String
  pub name : String
  pub category : SoftwareCategory
  pub winget : Option String
  pub apt : Option String
  pub dnf : Option String
  pub brew : Option String
  pub brew_cask : Bool

-- `Boolean(text)`
abbrev pub is_given : Option String → Bool
is_given none = false
is_given (some t) = if str_eq t "" then false else true

unfoldable pub available_on : SoftwarePreset → String → Bool
available_on p os =
    if str_eq os "windows"
    then is_given p.winget
    else (if str_eq os "linux"
        then is_given p.apt || is_given p.dnf
        else (if str_eq os "darwin" then is_given p.brew else false))

unfoldable pub manager_for : String → String
manager_for os =
    if str_eq os "windows"
    then "winget"
    else (if str_eq os "darwin" then "Homebrew" else (if str_eq os "linux" then "apt/dnf" else ""))

abbrev between : ℕ → ℕ → Char → Bool
between lo hi c = leb lo (code c) && leb (code c) hi

abbrev is_alphanumeric : Char → Bool
is_alphanumeric c = between 65 90 c || (between 97 122 c || between 48 57 c)

-- a full stop, a plus, an underscore or a minus
abbrev is_package_char : Char → Bool
is_package_char c =
    is_alphanumeric c || (code c == 46 || (code c == 43 || (code c == 95 || code c == 45)))

unfoldable pub all_package_chars : String → Bool
all_package_chars String.[] = true
all_package_chars (String.◌∷◌ c s) = let rest = all_package_chars s in is_package_char c && rest

-- `PACKAGE_ID.test(id)`
unfoldable pub is_package_id : String → Bool
unfolding all_package_chars
is_package_id String.[] = false
is_package_id (String.◌∷◌ c s) = is_alphanumeric c && all_package_chars s

pub data Shell : Type 0 where
  powershell bash zsh : Shell

pub record Command : Type 0 where
  pub command : String
  pub shell : Shell

abbrev winget_before : String
winget_before =
    "$ErrorActionPreference = 'Stop'\n$winget = Get-ChildItem \"$env:ProgramFiles\\WindowsApps\\Microsoft.DesktopAppInstaller_*_x64__8wekyb3d8bbwe\\winget.exe\" -ErrorAction SilentlyContinue |\n  Sort-Object LastWriteTime | Select-Object -Last 1\nif (-not $winget) { Write-Error 'winget (App Installer) ist auf diesem Geraet nicht installiert.'; exit 1 }\n& $winget.FullName install --id '"

abbrev winget_after : String
winget_after =
    "' --exact --silent --scope machine --accept-package-agreements --accept-source-agreements --disable-interactivity\nexit $LASTEXITCODE"

-- `WINGET`
unfoldable pub winget_script : String → String
winget_script id = parts (winget_before ∷ id ∷ winget_after ∷ [])

abbrev apt_branch : String → String
apt_branch id = parts (
    "command -v apt-get >/dev/null 2>&1; then\n  export DEBIAN_FRONTEND=noninteractive\n  apt-get update -qq && apt-get install -y -q '"
    ∷ id ∷ "'" ∷ [])

abbrev dnf_branch : String → String
dnf_branch id =
    parts ("command -v dnf >/dev/null 2>&1; then\n  dnf install -y -q '" ∷ id ∷ "'" ∷ [])

abbrev branch : (String → String) → Option String → List String
branch f none = []
branch f (some id) = if str_eq id "" then [] else f id ∷ []

-- `LINUX`
unfoldable pub linux_script : (apt dnf : Option String) → String
linux_script apt dnf = parts (
    "set -eu\nif "
    ∷ join "\nelif " (branch apt_branch apt ++ branch dnf_branch dnf)
    ∷ "\nelse\n  echo 'Kein passender Paketmanager gefunden ("
    ∷ join "/" (branch (λ id. "apt") apt ++ branch (λ id. "dnf") dnf)
    ∷ ").' >&2\n  exit 1\nfi"
    ∷ [])

abbrev brew_before : String
brew_before =
    "set -eu\nuser=$(stat -f%Su /dev/console)\nif [ -z \"$user\" ] || [ \"$user\" = root ]; then echo 'Niemand ist angemeldet - Homebrew braucht einen Benutzer.' >&2; exit 1; fi\nbrew=/opt/homebrew/bin/brew\n[ -x \"$brew\" ] || brew=/usr/local/bin/brew\nif [ ! -x \"$brew\" ]; then echo 'Homebrew ist auf diesem Mac nicht installiert.' >&2; exit 1; fi\nsudo -u \"$user\" -H \"$brew\" install "

-- `BREW`
unfoldable pub brew_script : String → Bool → String
brew_script id cask = parts (brew_before ∷ (if cask then "--cask " else "") ∷ "'" ∷ id ∷ "'" ∷ [])

-- The text of a field that is read only where it is given.
abbrev pub given : Option String → String
given none = ""
given (some t) = t

abbrev command_on : SoftwarePreset → String → Command
command_on p os =
    if str_eq os "windows"
    then record { command = winget_script (given p.winget); shell = powershell }
    else (if str_eq os "linux"
        then record { command = linux_script p.apt p.dnf; shell = bash }
        else record { command = brew_script (given p.brew) p.brew_cask; shell = zsh })

unfoldable pub install_command : SoftwarePreset → String → Option Command
install_command p os = if available_on p os then some (command_on p os) else none
