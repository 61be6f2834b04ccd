-- ===== src/Base/Search.antt =====
-- Searching in texts: `startsWith` and `includes`.
use Prim.Native.Char.{code}
use Prim.Native.String.{String}
use mathlib.Core.Bool.{Bool, true, false, ◌&&◌, ◌||◌}
use rmm_rxf_sys_de.Base.Tests.{◌==◌}

-- `text.startsWith(term)`
unfoldable pub starts_with : String → String → Bool
starts_with text String.[] = true
starts_with String.[] (String.◌∷◌ d term) = false
starts_with (String.◌∷◌ c text) (String.◌∷◌ d term) = code c == code d && starts_with text term

-- `text.includes(term)`
unfoldable pub contains : String → String → Bool
contains String.[] term = starts_with "" term
contains (String.◌∷◌ c text) term = starts_with (String.◌∷◌ c text) term || contains text term
