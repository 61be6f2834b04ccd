-- ===== src/Shortcuts.antt =====
-- The keyboard shortcuts: frontend/src/hooks/useShortcuts.ts. The state of the effect is the time at
-- which `g` was pressed, 0 for none; times are milliseconds.
pub mod Laws
mod Tests
use rmm_rxf_sys_de.Base.{
  ℕ, ◌-◌, Bool, ◌&&◌, ◌||◌, not, String, Option, none, some, List, [], ◌∷◌, find, ltb, str_eq,
  if◌then◌else◌, ◌==◌,
}

pub record GoShortcut : Type 0 where
  pub key : String
  pub path : String
  pub label : String

-- What the handler reads off a key press and off the page.
pub record KeyPress : Type 0 where
  pub now : ℕ
  pub key : String
  pub meta_key : Bool
  pub ctrl_key : Bool
  pub alt_key : Bool
  -- The target is an input, a text area, a select or editable.
  pub typing : Bool
  pub dialog_open : Bool

pub data Action : Type 0 where
  nothing open_palette open_help : Action
  navigate : String → Action

abbrev pub jump : Option GoShortcut → Action
jump none = nothing
jump (some s) = navigate s.path

-- `lower` stands for `toLowerCase`.
module _ (lower : String → String) (go : List GoShortcut) where
  -- The action, and `pendingG` after it.
  unfoldable pub on_key : KeyPress → ℕ → Action × ℕ
  on_key e pending =
      let hit = find (λ (s : GoShortcut). str_eq s.key e.key) go in
      if (e.meta_key || e.ctrl_key) && str_eq (lower e.key) "k"
      then (open_palette, pending)
      else (if e.meta_key || (e.ctrl_key || (e.alt_key || e.typing))
          then (nothing, pending)
          else (if e.dialog_open
              then (nothing, pending)
              else (if str_eq e.key "?"
                  then (open_help, pending)
                  else (if str_eq e.key "g"
                      then (nothing, e.now)
                      else (if not (pending == 0) && ltb (e.now - pending) 1200
                          then (jump hit, 0)
                          else (nothing, pending))))))

  -- The actions of key presses one after the other.
  unfoldable pub on_keys : List KeyPress → ℕ → List Action
  on_keys [] pending = []
  on_keys (e ∷ keys) pending = let (action, after) = on_key e pending in action ∷ on_keys keys after
