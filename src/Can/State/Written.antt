-- ===== src/Can/State/Written.antt =====
-- When `hpm_can_get_state` writes a state, and which.
use hpm_support.Prelude.{◌≡◌, ◌↔◌, true, false, none, arith}
use hpm_support.Can.Types.{Dev}
use hpm_support.Can.Hal.{Hal}
use hpm_support.Can.State.{get_state}

module _ {Hw : Type 0} (hal : Hal Hw) (d : Dev Hw) where
  -- The function leaves the caller's state unwritten exactly when the controller runs, is not in
  -- bus-off, and reports an error flag that is neither the warning limit nor the passive mode.
  pub get_state-none : (get_state hal d ≡ none) ↔ (
      (d.drv.started ≡ true)
      × (hal.in_bus_off d.hw ≡ false)
      × ((hal.error_flags d.hw).warning_limit ≡ false)
      × ((hal.error_flags d.hw).passive_mode_active ≡ false)
      × ((hal.error_flags d.hw).others ≡ true))
  unfolding get_state
  get_state-none = ground arith
