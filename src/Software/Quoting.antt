-- ===== src/Software/Quoting.antt =====
-- What a package identifier can do to a script: frontend/src/softwareCatalog.ts, lines 55 to 114.
use text.Mathlib.TextLemmas.{nil-append, append-nil}
use rmm_rxf_sys_de.Base.{
  ℕ, ◌≡◌, refl, sym, ap, Bool, true, false, String, Option, none, some, List, [], ◌∷◌, ◌++◌, str_eq,
  eq_iff, get_elem?, All, Bool-cases, inl, inr, if◌then◌else◌, arith,
}
use rmm_rxf_sys_de.Quotes.{quotes, cut, cut-append, cut-whole}
use rmm_rxf_sys_de.Software.{
  SoftwarePreset, Command, is_package_id, all_package_chars, available_on, winget_script,
  linux_script, brew_script, given, command_on, install_command,
}

quotes-package_chars : (s : String) → all_package_chars s ≡ true → quotes s ≡ 0
unfolding quotes all_package_chars
quotes-package_chars String.[] h = refl
quotes-package_chars (String.◌∷◌ c s) h = ground (arith, quotes-package_chars s)

quotes-package_id : (id : String) → is_package_id id ≡ true → quotes id ≡ 0
unfolding is_package_id quotes
quotes-package_id String.[] h = refl
quotes-package_id (String.◌∷◌ c s) h = ground (arith, quotes-package_chars s)

no_package_id : is_package_id "" ≡ false
unfolding is_package_id
no_package_id = refl

package_id_given : (id : String) → is_package_id id ≡ true → str_eq id "" ≡ false
package_id_given id h = elim (Bool-cases (str_eq id "")) [
  | inl empty ↦ absurd (cc (rw ((eq_iff id "").0 empty) at h, no_package_id))
  | inr full ↦ full
]

-- What stands outside the quotes, and what inside.
abbrev pub outside : List String → List String
outside [] = []
outside (w ∷ []) = w ∷ []
outside (w ∷ v ∷ ws) = w ∷ outside ws

abbrev pub inside : List String → List String
inside [] = []
inside (w ∷ []) = []
inside (w ∷ v ∷ ws) = v ∷ inside ws

-- The text is one of the quoted strings, whole.
abbrev pub IsQuoted : String → String → Type 0
IsQuoted command id = (n : ℕ) × (get_elem? (inside (cut command)) n ≡ some id)

module _ (id : String) (k : quotes id ≡ 0) where
  winget-outside : outside (cut (winget_script id)) ≡ outside (cut (winget_script "x"))
  unfolding winget_script
  winget-outside = simp (cut-append, cut-whole id k) (unfold cut in simp (append-nil))

  winget-IsQuoted : IsQuoted (winget_script id) id
  unfolding winget_script
  winget-IsQuoted = (
    2,
    simp (cut-append, cut-whole id k) (unfold cut in simp (append-nil) (ap some (nil-append id))),
  )

  brew-outside :
      (cask : Bool) → outside (cut (brew_script id cask)) ≡ outside (cut (brew_script "x" cask))
  unfolding brew_script
  brew-outside true = simp (cut-append, cut-whole id k) (unfold cut in simp (append-nil))
  brew-outside false = simp (cut-append, cut-whole id k) (unfold cut in simp (append-nil))

  brew-IsQuoted : (cask : Bool) → IsQuoted (brew_script id cask) id
  unfolding brew_script
  brew-IsQuoted true = (
    2,
    simp (cut-append, cut-whole id k) (unfold cut in simp (append-nil) (ap some (nil-append id))),
  )
  brew-IsQuoted false = (
    2,
    simp (cut-append, cut-whole id k) (unfold cut in simp (append-nil) (ap some (nil-append id))),
  )

  module _ (f : str_eq id "" ≡ false) where
    apt-outside :
        outside (cut (linux_script (some id) none)) ≡ outside (cut (linux_script (some "x") none))
    unfolding linux_script
    apt-outside = rw (f) (simp (cut-append, cut-whole id k) (unfold cut in simp (append-nil)))

    apt-IsQuoted : IsQuoted (linux_script (some id) none) id
    unfolding linux_script
    apt-IsQuoted = (
      0,
      rw (f) (
          simp (cut-append, cut-whole id k)
            (unfold cut in simp (append-nil) (ap some (nil-append id)))),
    )

    dnf-outside :
        outside (cut (linux_script none (some id))) ≡ outside (cut (linux_script none (some "x")))
    unfolding linux_script
    dnf-outside = rw (f) (simp (cut-append, cut-whole id k) (unfold cut in simp (append-nil)))

    dnf-IsQuoted : IsQuoted (linux_script none (some id)) id
    unfolding linux_script
    dnf-IsQuoted = (
      0,
      rw (f) (
          simp (cut-append, cut-whole id k)
            (unfold cut in simp (append-nil) (ap some (nil-append id)))),
    )

module _ (a d : String) (k : quotes a ≡ 0) (h : quotes d ≡ 0) (f : str_eq a "" ≡ false)
    (g : str_eq d "" ≡ false) where
  both-outside :
      outside (cut (linux_script (some a) (some d)))
      ≡ outside (cut (linux_script (some "x") (some "x")))
  unfolding linux_script
  both-outside =
      rw (f, g) (simp (cut-append, cut-whole a k, cut-whole d h) (unfold cut in simp (append-nil)))

  both-IsQuoted :
      IsQuoted (linux_script (some a) (some d)) a × IsQuoted (linux_script (some a) (some d)) d
  unfolding linux_script
  both-IsQuoted = (
    (
      0,
      rw (f, g)
          (simp (cut-append, cut-whole a k, cut-whole d h)
            (unfold cut in simp (append-nil) (ap some (nil-append a)))),
    ),
    (
      1,
      rw (f, g)
          (simp (cut-append, cut-whole a k, cut-whole d h)
            (unfold cut in simp (append-nil) (ap some (nil-append d)))),
    ),
  )

-- Every identifier that is given is one of a package.
abbrev pub IsIdIf : Option String → Type 0
IsIdIf none = Unit
IsIdIf (some id) = is_package_id id ≡ true

abbrev pub IsSafe : SoftwarePreset → Type 0
IsSafe p = IsIdIf p.winget × IsIdIf p.apt × IsIdIf p.dnf × IsIdIf p.brew

-- The same preset, its packages all called x.
abbrev blank : Option String → Option String
blank none = none
blank (some id) = some "x"

unfoldable pub blanked : SoftwarePreset → SoftwarePreset
blanked p = record p {
  winget = blank p.winget;
  apt = blank p.apt;
  dnf = blank p.dnf;
  brew = blank p.brew;
}

abbrev one : Option String → List String
one none = []
one (some id) = id ∷ []

-- The packages that a script for the system installs.
unfoldable pub packages : SoftwarePreset → String → List String
packages p os =
    if str_eq os "windows"
    then one p.winget
    else (if str_eq os "linux" then one p.apt ++ one p.dnf else one p.brew)

abbrev Sound : String → String → List String → Type 0
Sound command plain ids = (outside (cut command) ≡ outside (cut plain)) × All (IsQuoted command) ids

winget-Sound :
    (w : Option String)
    → IsIdIf w
    → Sound (winget_script (given w)) (winget_script (given (blank w))) (one w)
winget-Sound none h = (refl, tt)
winget-Sound (some id) h =
    let k = quotes-package_id id h in (winget-outside id k, (winget-IsQuoted id k, tt))

brew-Sound :
    (b : Option String) (cask : Bool)
    → IsIdIf b
    → Sound (brew_script (given b) cask) (brew_script (given (blank b)) cask) (one b)
brew-Sound none cask h = (refl, tt)
brew-Sound (some id) cask h =
    let k = quotes-package_id id h in (brew-outside id k cask, (brew-IsQuoted id k cask, tt))

linux-Sound :
    (a d : Option String)
    → IsIdIf a
    → IsIdIf d
    → Sound (linux_script a d) (linux_script (blank a) (blank d)) (one a ++ one d)
linux-Sound none none h g = (refl, tt)
linux-Sound (some a) none h g =
    let k = quotes-package_id a h in
    let f = package_id_given a h in (apt-outside a k f, (apt-IsQuoted a k f, tt))
linux-Sound none (some d) h g =
    let k = quotes-package_id d g in
    let f = package_id_given d g in (dnf-outside d k f, (dnf-IsQuoted d k f, tt))
linux-Sound (some a) (some d) h g =
    let k = quotes-package_id a h in
    let l = quotes-package_id d g in
    let f = package_id_given a h in
    let e = package_id_given d g in
    let (first, second) = both-IsQuoted a d k l f e in
    (both-outside a d k l f e, (first, (second, tt)))

command_on-Sound :
    (p : SoftwarePreset) (os : String)
    → IsSafe p
    → Sound (command_on p os).command (command_on (blanked p) os).command (packages p os)
unfolding blanked packages
command_on-Sound p os (w, a, d, b) = elim (Bool-cases (str_eq os "windows")) [
  | inl windows ↦ rw (windows) (winget-Sound p.winget w)
  | inr other ↦ elim (Bool-cases (str_eq os "linux")) [
    | inl linux ↦ rw (other, linux) (linux-Sound p.apt p.dnf a d)
    | inr mac ↦ rw (other, mac) (brew-Sound p.brew p.brew_cask b)
  ]
]

-- For a preset whose identifiers are all ones of packages, each package that the script for a system
-- installs stands in it as one quoted string, whole, and outside its quotes the script is the one
-- for a package called x: no identifier changes what the shell does.
pub install_command-IsQuoted :
    (p : SoftwarePreset) (os : String) (c : Command)
    → IsSafe p
    → install_command p os ≡ some c
    → (outside (cut c.command) ≡ outside (cut (command_on (blanked p) os).command))
      × All (IsQuoted c.command) (packages p os)
unfolding install_command
install_command-IsQuoted p os c h e = elim (Bool-cases (available_on p os)) [
  | inl on ↦
      let same : command_on p os ≡ c = cc (rw (on) at e) in rw (sym same) (command_on-Sound p os h)
  | inr off ↦ absurd (cc (rw (off) at e))
]
