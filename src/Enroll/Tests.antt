-- ===== src/Enroll/Tests.antt =====
-- A command for Lisa's laptop: frontend/src/shell/enroll/enrollCommands.ts.
use rmm_rxf_sys_de.Base.{◌≡◌, refl, String, some}
use rmm_rxf_sys_de.Enroll.{linux, setup_url, install_command}
use rmm_rxf_sys_de.Quotes.{quotes, cut}
use rmm_rxf_sys_de.Enroll.Quoting.{pieces, install_command-cut}

-- The label has no other character that would be encoded.
abbrev encode : String → String
encode t = t

install_command-cut_example :
    cut (install_command encode linux "https://rmm.example.org" "abc" (some "Lisa's"))
    ≡ pieces linux "abc" (setup_url encode linux "https://rmm.example.org" (some "Lisa's"))
unfolding quotes
install_command-cut_example =
    install_command-cut encode linux "https://rmm.example.org" "abc" (some "Lisa's") refl refl
