-- ===== src/Shortcuts/Laws.antt =====
-- What a jump to a page takes: frontend/src/hooks/useShortcuts.ts.
use rmm_rxf_sys_de.Base.{
  ℕ, ◌-◌, ◌≡◌, refl, Bool, true, not, ◌&&◌, ◌||◌, String, List, [], ◌∷◌, any, find, ltb, Bool-cases,
  inl, inr, str_eq, eq_iff, arith, ◌==◌,
}
use rmm_rxf_sys_de.Shortcuts.{GoShortcut, KeyPress, navigate, jump, on_key}

-- Outside fields and dialogs and without a modifier.
abbrev pub is_plain : KeyPress → Bool
is_plain e = not (e.meta_key || (e.ctrl_key || (e.alt_key || e.typing))) && not e.dialog_open

abbrev pub is_g : KeyPress → Bool
is_g e = is_plain e && str_eq e.key "g"

-- A plain `g` less than 1200 ms before that time.
abbrev pub is_recent_g : ℕ → KeyPress → Bool
is_recent_g now e = is_g e && ltb (now - e.now) 1200

abbrev pub leads_to : String → String → GoShortcut → Bool
leads_to key path s = str_eq s.key key && str_eq s.path path

module _ (lower : String → String) (go : List GoShortcut) where
  -- `pendingG` after key presses, the latest first.
  unfoldable pub pending_after : List KeyPress → ℕ
  pending_after [] = 0
  pending_after (e ∷ earlier) = (on_key lower go e (pending_after earlier)).1

  -- Where `pendingG` comes from.
  abbrev Noted : List KeyPress → ℕ → Type 0
  Noted seen pending =
      (now : ℕ)
      → (not (pending == 0) && ltb (now - pending) 1200) ≡ true
      → any (is_recent_g now) seen ≡ true

  on_key-Noted :
      (seen : List KeyPress) (e : KeyPress) (pending : ℕ)
      → Noted seen pending
      → Noted (e ∷ seen) (on_key lower go e pending).1
  unfolding on_key
  on_key-Noted seen e pending h now k = ground (arith, h now)

  jump-leads :
      (key path : String) (ss : List GoShortcut)
      → jump (find (λ (s : GoShortcut). str_eq s.key key) ss) ≡ navigate path
      → any (leads_to key path) ss ≡ true
  jump-leads key path [] h = absurd cc
  jump-leads key path (s ∷ ss) h = elim (Bool-cases (str_eq s.key key)) [
    | inl this ↦
        let same : s.path ≡ path = cc (rw (this) at h) in
        rw (this, (eq_iff s.path path).1 same) refl
    | inr other ↦ let rest = jump-leads key path ss (rw (other) at h) in ground (arith, rest)
  ]

  pending_after-Noted : (earlier : List KeyPress) → Noted earlier (pending_after earlier)
  unfolding pending_after
  pending_after-Noted [] now k = absurd (ground arith)
  pending_after-Noted (e ∷ earlier) now k =
      on_key-Noted earlier e (pending_after earlier) (pending_after-Noted earlier) now k

  on_key-jumps :
      (e : KeyPress) (pending : ℕ) (path : String)
      → (on_key lower go e pending).0 ≡ navigate path
      → (is_plain e ≡ true)
        × ((not (pending == 0) && ltb (e.now - pending) 1200) ≡ true)
        × (jump (find (λ (s : GoShortcut). str_eq s.key e.key) go) ≡ navigate path)
  unfolding on_key
  on_key-jumps e pending path h = ground arith

  -- The page changes only on a key pressed outside fields and dialogs and without a modifier, after
  -- such a `g` less than 1200 ms before it, and only to the page of a shortcut with that key.
  pub navigates_after_g :
      (earlier : List KeyPress) (e : KeyPress) (path : String)
      → (on_key lower go e (pending_after earlier)).0 ≡ navigate path
      → (is_plain e ≡ true)
        × (any (is_recent_g e.now) earlier ≡ true)
        × (any (leads_to e.key path) go ≡ true)
  navigates_after_g earlier e path h =
      let (plain, armed, jumps) = on_key-jumps e (pending_after earlier) path h in
      (plain, pending_after-Noted earlier e.now armed, jump-leads e.key path go jumps)
