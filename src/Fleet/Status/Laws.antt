-- ===== src/Fleet/Status/Laws.antt =====
-- The bars and the dot of a device agree: frontend/src/deviceStatus.ts.
use rmm_rxf_sys_de.Base.{Bool, ◌≡◌, ◌⊎◌, true, false, arith}
use rmm_rxf_sys_de.Fleet.Types.{Device}
use rmm_rxf_sys_de.Fleet.Status.{
  DeviceState, Level, disk, load_level, max_disk, device_state, has_problem,
}

abbrev pub state_of : Level → DeviceState
state_of Level.ok = DeviceState.ok
state_of Level.warn = DeviceState.warn
state_of Level.crit = DeviceState.crit

abbrev pub is_coloured : Level → Bool
is_coloured Level.ok = false
is_coloured Level.warn = true
is_coloured Level.crit = true

-- A device that is online has the colour of its fullest disk's bar, and has a problem exactly if
-- that bar is not green; a device that is offline is shown as offline and never as a problem.
pub device_state-load_level :
    (d : Device)
    → (d.online ≡ true)
        × (device_state d ≡ state_of (load_level (max_disk d) disk))
        × (has_problem d ≡ is_coloured (load_level (max_disk d) disk))
      ⊎ (d.online ≡ false) × (device_state d ≡ DeviceState.off) × (has_problem d ≡ false)
unfolding device_state has_problem load_level
device_state-load_level d = ground arith
