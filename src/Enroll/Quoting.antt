-- ===== src/Enroll/Quoting.antt =====
-- The commands quote what the label says: frontend/src/shell/enroll/enrollCommands.ts, lines 29 to
-- 58.
use Prim.Native.Char.{code}
use Prim.Native.String
use text.Mathlib.TextLemmas.{nil-append, append-nil}
use rmm_rxf_sys_de.Base.{
  ◌≡◌, refl, ◌∙◌, ◌==◌, String, Option, none, some, List, [], ◌∷◌, str_eq, Bool-cases, inl, inr,
  arith,
}
use rmm_rxf_sys_de.Base.Text.{parts}
use rmm_rxf_sys_de.Quotes.{quotes, quotes-append, cut, cut-append, cut-whole}
use rmm_rxf_sys_de.Enroll.{
  AgentPlatform, windows, linux, darwin, escaped, encode_label, setup_url, label_query,
  platform_text, install_command,
}

quotes-escaped : (s : String) → quotes (escaped s) ≡ 0
unfolding escaped quotes
quotes-escaped String.[] = refl
quotes-escaped (String.◌∷◌ c s) = elim (Bool-cases (code c == 39)) [
  | inl quote ↦ rw (quote) (quotes-append "%27" (escaped s) ∙ omega (arith, quotes-escaped s))
  | inr other ↦ rw (other) (ground (arith, quotes-escaped s))
]

quotes-setup_url :
    (encode : String → String) (p : AgentPlatform) (origin : String) (label : Option String)
    → quotes origin ≡ 0
    → quotes (setup_url encode p origin label) ≡ 0
unfolding setup_url encode_label quotes
quotes-setup_url encode p origin label h =
    quotes-append origin _
    ∙ omega (
      arith,
      quotes-append "/api/agent/setup/" (parts (platform_text p ∷ label_query encode label ∷ [])),
      quotes-append (platform_text p) (parts (label_query encode label ∷ [])),
      quotes-append (label_query encode label) "",
      platform p,
      query label,
    )
  where
    platform : (p : AgentPlatform) → quotes (platform_text p) ≡ 0
    platform windows = refl
    platform linux = refl
    platform darwin = refl

    query : (label : Option String) → quotes (label_query encode label) ≡ 0
    query none = refl
    query (some l) = elim (Bool-cases (str_eq l "")) [
      | inl empty ↦ rw (empty) refl
      | inr full ↦ rw (full) (
          quotes-append "?label=" (parts (encode_label encode l ∷ []))
          ∙ omega (arith, quotes-append (encode_label encode l) "", quotes-escaped (encode l)))
    ]

abbrev pub pieces : AgentPlatform → (token url : String) → List String
pieces windows token url =
    "irm -Headers @{" ∷ "X-Enroll-Token" ∷ "=" ∷ token ∷ "} " ∷ url ∷ " | iex" ∷ []
pieces p token url =
    "curl -fsSL -H " ∷ String.◌++◌ "X-Enroll-Token: " token ∷ " " ∷ url ∷ " | sudo bash" ∷ []

module _ (token url : String) (k : quotes token ≡ 0) (h : quotes url ≡ 0) where
  windows-cut :
      cut (parts ("irm -Headers @{'X-Enroll-Token'='" ∷ token ∷ "'} '" ∷ url ∷ "' | iex" ∷ []))
      ≡ pieces windows token url
  windows-cut =
      simp (cut-append, cut-whole token k, cut-whole url h)
        (unfold cut in simp (nil-append, append-nil))

  bash-cut :
      cut (parts ("curl -fsSL -H 'X-Enroll-Token: " ∷ token ∷ "' '" ∷ url ∷ "' | sudo bash" ∷ []))
      ≡ pieces linux token url
  bash-cut =
      simp (cut-append, cut-whole token k, cut-whole url h)
        (unfold cut in simp (nil-append, append-nil))

-- Whatever label is given, the shell sees the token and the address whole, each as one quoted
-- string, and around them only what the command itself says: cut at its quotes, the command is
-- always the same pieces with the token and the address in their places.
pub install_command-cut :
    (encode : String → String) (p : AgentPlatform) (origin token : String) (label : Option String)
    → quotes origin ≡ 0
    → quotes token ≡ 0
    → cut (install_command encode p origin token label)
      ≡ pieces p token (setup_url encode p origin label)
unfolding install_command
install_command-cut encode windows origin token label h k =
    windows-cut token (setup_url encode windows origin label) k
      (quotes-setup_url encode windows origin label h)
install_command-cut encode linux origin token label h k =
    bash-cut token (setup_url encode linux origin label) k
      (quotes-setup_url encode linux origin label h)
install_command-cut encode darwin origin token label h k =
    bash-cut token (setup_url encode darwin origin label) k
      (quotes-setup_url encode darwin origin label h)
