-- ===== src/Software/Tests.antt =====
-- 7-Zip on Linux: frontend/src/softwareCatalog.ts.
use rmm_rxf_sys_de.Base.{◌≡◌, refl, some, false, All}
use rmm_rxf_sys_de.Quotes.{cut}
use rmm_rxf_sys_de.Software.{
  SoftwarePreset, tools, Command, bash, available_on, is_package_id, linux_script, install_command,
  command_on,
}
use rmm_rxf_sys_de.Software.Quoting.{outside, IsQuoted, blanked, packages, install_command-IsQuoted}

abbrev seven_zip : SoftwarePreset
seven_zip = record {
  id = "7zip";
  name = "7-Zip";
  category = tools;
  winget = some "7zip.7zip";
  apt = some "p7zip-full";
  dnf = some "p7zip";
  brew = some "sevenzip";
  brew_cask = false;
}

abbrev script : Command
script = record { command = linux_script (some "p7zip-full") (some "p7zip"); shell = bash }

install_command-IsQuoted_example :
    (outside (cut script.command) ≡ outside (cut (command_on (blanked seven_zip) "linux").command))
    × All (IsQuoted script.command) (packages seven_zip "linux")
unfolding is_package_id install_command available_on
install_command-IsQuoted_example =
    install_command-IsQuoted seven_zip "linux" script (refl, refl, refl, refl) refl
