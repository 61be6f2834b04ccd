-- ===== src/Accounts/Sort.antt =====
-- The order of the accounts: frontend/src/pages/admin/accounts.ts, lines 64 to 129.
pub mod Laws
use Prim.Native.Char.{code}
use Prim.Native.String
use Prim.Native.Nat.Ordering.{lt, gt}
use mathlib.Core.Option
use rmm_rxf_sys_de.Base.{
  ℕ, Bool, false, ◌&&◌, String, Option, none, some, List, [], ◌∷◌, ◌==◌, str_eq, Ordering, compare,
  or_else, if◌then◌else◌,
}
use rmm_rxf_sys_de.Base.Sort.{sort}
use rmm_rxf_sys_de.Base.Text.{parts, Collator}
use rmm_rxf_sys_de.Fleet.People.{Account, Role, admin, techniker, viewer}
use rmm_rxf_sys_de.Patches.Sort.{SortDir, asc, desc, Value, num, text, signed, turned}

pub data SortKey : Type 0 where
  name role mail totp login : SortKey

pub record Sort : Type 0 where
  pub key : SortKey
  pub dir : SortDir

abbrev pub default_sort : Sort
default_sort = record { key = name; dir = asc }

abbrev pub key_text : SortKey → String
key_text name = "name"
key_text role = "role"
key_text mail = "mail"
key_text totp = "totp"
key_text login = "login"

-- `SORT_KEYS.includes(key)`, with the key that it is.
unfoldable pub key_of : String → Option SortKey
key_of t =
    if str_eq t "name"
    then some name
    else (if str_eq t "role"
        then some role
        else (if str_eq t "mail"
            then some mail
            else (if str_eq t "totp"
                then some totp
                else (if str_eq t "login" then some login else none))))

abbrev pub first_dir : SortKey → SortDir
first_dir login = desc
first_dir _ = asc

-- `raw.split('-')`: the first part, and what follows the first dash.
unfoldable pub before_dash : String → String
before_dash String.[] = ""
before_dash (String.◌∷◌ c s) =
    let rest = before_dash s in if code c == 45 then "" else String.◌∷◌ c rest

unfoldable pub after_dash : String → String
after_dash String.[] = ""
after_dash (String.◌∷◌ c s) = let rest = after_dash s in if code c == 45 then s else rest

unfoldable pub parse_sort : Option String → Sort
unfolding key_of before_dash after_dash
parse_sort raw =
    let parts = or_else raw "" in
    elim (key_of (before_dash parts)) [
      | none ↦ default_sort
      | some key ↦ record {
        key = key;
        dir = if str_eq (before_dash (after_dash parts)) "desc" then desc else asc;
      }
    ]

abbrev dir_text : SortDir → String
dir_text asc = "asc"
dir_text desc = "desc"

abbrev pub same_key : SortKey → SortKey → Bool
same_key k l = str_eq (key_text k) (key_text l)

unfoldable pub format_sort : Sort → Option String
format_sort s =
    if same_key s.key default_sort.key && str_eq (dir_text s.dir) (dir_text default_sort.dir)
    then none
    else some (parts (key_text s.key ∷ "-" ∷ dir_text s.dir ∷ []))

unfoldable pub next_sort : Sort → SortKey → Sort
next_sort cur key =
    if same_key cur.key key
    then record { key = key; dir = turned cur.dir }
    else record { key = key; dir = first_dir key }

abbrev pub role_rank : Role → ℕ
role_rank admin = 0
role_rank techniker = 1
role_rank viewer = 2

-- `lower` stands for `toLowerCase`. An empty e-mail address counts as none.
abbrev mail_of : (lower : String → String) → Option String → Option Value
mail_of lower none = none
mail_of lower (some t) = if str_eq t "" then none else some (text (lower t))

unfoldable pub value : (lower : String → String) → Account → SortKey → Option Value
value lower a name = none
value lower a role = some (num (role_rank a.role))
value lower a mail = mail_of lower a.email
value lower a totp = some (num (if a.totp_enabled then 1 else 0))
value lower a login = Option.map num a.last_login_at

abbrev pub by_name : Collator → Account → Account → Ordering
by_name names a b = names.compare a.username b.username

-- The collators stand for `localeCompare`, of names without regard to case.
module _ (collator names : Collator) (lower : String → String) where
  abbrev pub compare_value : Value → Value → Ordering
  compare_value (text v) (text w) = collator.compare v w
  compare_value (num v) (num w) = compare v w
  -- A column holds texts only or numbers only.
  compare_value (num v) (text w) = lt
  compare_value (text v) (num w) = gt

  abbrev same_value : Value → Value → Bool
  same_value (text v) (text w) = str_eq v w
  same_value (num v) (num w) = v == w
  same_value _ _ = false

  abbrev pub compare_known : SortDir → Account → Option Value → Account → Option Value → Ordering
  compare_known dir a none b none = by_name names a b
  compare_known dir a none b (some w) = gt
  compare_known dir a (some v) b none = lt
  compare_known dir a (some v) b (some w) =
      if same_value v w then by_name names a b else signed dir (compare_value v w)

  -- The comparator of `sortAccounts`.
  unfoldable pub compare_accounts : Sort → Account → Account → Ordering
  compare_accounts s a b =
      if same_key s.key name
      then signed s.dir (by_name names a b)
      else compare_known s.dir a (value lower a s.key) b (value lower b s.key)

  unfoldable pub sort_accounts : List Account → Sort → List Account
  sort_accounts accounts s = sort (compare_accounts s) accounts
