-- ===== src/Accounts/Forms.antt =====
-- Summary and forms of the accounts: frontend/src/pages/admin/accounts.ts, lines 15 to 60 and 131 to
-- 169.
use rmm_rxf_sys_de.Base.{
  ℕ, suc, ◌-◌, ◌≤◌, ◌≡◌, Bool, true, false, not, ◌&&◌, ◌||◌, String, Option, none, some, List, [],
  ◌∷◌, ◌++◌, ◌==◌, ltb, any, count, length, is_some, or_else, str_eq, eq_iff, arith, if◌then◌else◌,
  refl,
}
use rmm_rxf_sys_de.Base.Text.{decimal, parts, join, plural}
use rmm_rxf_sys_de.Fleet.People.{Account, Role, admin, techniker, viewer}

abbrev pub min_password : ℕ
min_password = 8

abbrev pub is_viewer : Role → Bool
is_viewer viewer = true
is_viewer techniker = false
is_viewer admin = false

unfoldable pub sees_nothing : Account → Bool
sees_nothing a = is_viewer a.role && not (is_some a.person_id)

unfoldable pub account_summary : List Account → String
unfolding sees_nothing
account_summary accounts =
    let off = count (λ (a : Account). a.disabled) accounts in
    let unsafe = count (λ (a : Account). not a.disabled && not a.totp_enabled) accounts in
    let blind = count (λ (a : Account). not a.disabled && sees_nothing a) accounts in
    join " · " (
      plural (length accounts) "Konto" "Konten"
      ∷ ((if ltb 0 off then parts (decimal off ∷ " deaktiviert" ∷ []) ∷ [] else [])
          ++ (if ltb 0 unsafe then parts (decimal unsafe ∷ " ohne Zwei-Faktor" ∷ []) ∷ [] else [])
          ++ (if ltb 0 blind
              then parts (decimal blind ∷ " Betrachter ohne Person" ∷ []) ∷ []
              else [])))

pub record AccountDraft : Type 0 where
  pub username : String
  pub password : String
  pub role : Role
  pub email : String
  pub person_id : Option ℕ

abbrev pub empty_draft : AccountDraft
empty_draft = record { username = ""; password = ""; role = viewer; email = ""; person_id = none }

-- `Array.from(pw).length`: the code points.
abbrev pub code_points : String → ℕ
code_points String.[] = 0
code_points (String.◌∷◌ c s) = suc (code_points s)

-- The subtraction stops at 0, as `Math.max(0, …)` does.
unfoldable pub password_shortfall : String → ℕ
password_shortfall pw = min_password - code_points pw

unfoldable pub password_hint : String → String
password_hint pw =
    let missing = password_shortfall pw in
    if not (str_eq pw "") && ltb 0 missing
    then parts
        ("Mindestens " ∷ decimal min_password ∷ " Zeichen — noch " ∷ decimal missing ∷ "." ∷ [])
    else parts ("Mindestens " ∷ decimal min_password ∷ " Zeichen." ∷ [])

-- `trim` and `lower` stand for `trim` and `toLowerCase`.
module _ (trim lower : String → String) where
  abbrev pub is_named : String → Account → Bool
  is_named name a = str_eq (lower a.username) name

  unfoldable pub name_taken : String → List Account → Bool
  name_taken name accounts =
      let n = lower (trim name) in not (str_eq n "") && any (is_named n) accounts

  unfoldable pub draft_ready : AccountDraft → List Account → Bool
  draft_ready d accounts =
      not (str_eq (trim d.username) "")
      && not (name_taken d.username accounts)
      && (password_shortfall d.password == 0)
      && (not (is_viewer d.role) || ltb 0 (or_else d.person_id 0))

  -- The account that a draft asks for.
  abbrev pub created : AccountDraft → Account
  created d = record {
    id = 0;
    username = trim d.username;
    email = none;
    role = d.role;
    disabled = false;
    created_at = 0;
    last_login_at = none;
    totp_enabled = false;
    person_id = d.person_id;
  }

  -- An account from a draft that is ready has a name that no account has yet, whatever its case,
  -- and is no viewer without a person; the password has the eight characters that the server asks for.
  pub draft_ready_lem :
      (d : AccountDraft) (accounts : List Account)
      → ((t : String) → lower t ≡ "" → t ≡ "")
      → draft_ready d accounts ≡ true
      → (any (is_named (lower (trim d.username))) accounts ≡ false)
        × (sees_nothing (created d) ≡ false)
        × (min_password ≤ code_points d.password)
  unfolding draft_ready name_taken password_shortfall sees_nothing
  draft_ready_lem d accounts lower_empty h =
      let n = trim d.username in
      ground (arith, lower_empty n, eq_iff (lower n) "", eq_iff n "", seen d.person_id)
    where
      seen : (o : Option ℕ) → ltb 0 (or_else o 0) ≡ true → is_some o ≡ true
      seen none k = ground arith
      seen (some id) k = refl
