-- ===== src/Shortcuts/Tests.antt =====
-- A jump to the devices and a letter alone: frontend/src/hooks/useShortcuts.ts.
use rmm_rxf_sys_de.Base.{ℕ, ◌≡◌, refl, String, false, List, [], ◌∷◌, true, any}
use rmm_rxf_sys_de.Shortcuts.{GoShortcut, KeyPress, navigate, nothing, on_key, on_keys}
use rmm_rxf_sys_de.Shortcuts.Laws.{
  is_plain, is_recent_g, leads_to, pending_after, navigates_after_g,
}

abbrev press : ℕ → String → KeyPress
press now key = record {
  now = now;
  key = key;
  meta_key = false;
  ctrl_key = false;
  alt_key = false;
  typing = false;
  dialog_open = false;
}

abbrev same : String → String
same t = t

abbrev go : List GoShortcut
go = record { key = "d"; path = "/devices"; label = "Geräte" } ∷ []

abbrev keys : List KeyPress
keys = press 10 "g" ∷ press 500 "d" ∷ press 600 "d" ∷ []

keys-actions : on_keys same go keys 0 ≡ nothing ∷ navigate "/devices" ∷ nothing ∷ []
unfolding on_keys on_key
keys-actions = refl

navigates_after_g_example :
    (is_plain (press 500 "d") ≡ true)
    × (any (is_recent_g 500) (press 10 "g" ∷ []) ≡ true)
    × (any (leads_to "d" "/devices") go ≡ true)
unfolding on_key pending_after
navigates_after_g_example =
    navigates_after_g same go (press 10 "g" ∷ []) (press 500 "d") "/devices" refl
