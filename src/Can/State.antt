-- ===== src/Can/State.antt =====
-- `hpm_can_get_state` of drivers/can/can_hpmicro.c.
pub mod Written
use hpm_support.Prelude.{Bool, true, false, ◌||◌, Option, none, some, if◌then◌else◌}
use hpm_support.Can.Types.{
  ErrorFlags, CanState, error_active, error_warning, error_passive, bus_off, stopped, ErrCnt, Dev,
}
use hpm_support.Can.Hal.{Hal}

-- `error_flags == 0U`
abbrev pub no_error_flag : ErrorFlags → Bool
no_error_flag e = if e.warning_limit || e.passive_mode_active || e.others then false else true

abbrev pub is_bus_off : CanState → Bool
is_bus_off bus_off = true
is_bus_off _ = false

abbrev pub state_or : Option CanState → CanState → CanState
state_or none s = s
state_or (some s) s' = s

module _ {Hw : Type 0} (hal : Hal Hw) where
  -- What the function writes to `*state`; `none` where it writes nothing.
  unfoldable pub get_state : Dev Hw → Option CanState
  get_state d =
      let e = hal.error_flags d.hw in
      if d.drv.started
      then if hal.in_bus_off d.hw
        then some bus_off
        else if e.warning_limit
        then some error_warning
        else if e.passive_mode_active
        then some error_passive
        else if no_error_flag e
        then some error_active
        else none
      else some stopped

  -- What it writes to `*err_cnt`.
  unfoldable pub get_err_cnt : Dev Hw → ErrCnt
  get_err_cnt d = record {
    tx_err_cnt = hal.transmit_error_count d.hw;
    rx_err_cnt = hal.receive_error_count d.hw;
  }

  -- The local `state` of a caller after the call.
  unfoldable pub read_state : Dev Hw → CanState
  unfolding get_state
  read_state d = state_or (get_state d) (hal.uninit_state d.hw)
