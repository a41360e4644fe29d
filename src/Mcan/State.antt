-- ===== src/Mcan/State.antt =====
-- `hpm_mcan_get_state` of drivers/can/mcan_hpmicro.c.
pub mod Truncated
use hpm_support.Prelude.{ℕ, ◌%◌, ◌^◌, Bool, true, false, not, ◌&&◌, ◌==◌, if◌then◌else◌, word_and}
use hpm_support.Can.Types.{
  CanState, error_active, error_warning, error_passive, bus_off, stopped, ErrCnt,
}
use hpm_support.Mcan.Types.{Dev}
use hpm_support.Mcan.Hal.{Hal}

-- `(flags & mask) != 0`
abbrev pub has_flag : ℕ → ℕ → Bool
has_flag flags mask = not (word_and 32 flags mask == 0)

module _ {Hw : Type 0} (hal : Hal Hw) where
  -- The test of the error event, on the interrupt flags in a `uint8_t`.
  unfoldable pub sees_error : Hw → Bool
  sees_error hw = has_flag (hal.interrupt_flags hw % 2 ^ 8) hal.event_error

  -- What the function writes to `*state`.
  unfoldable pub get_state : Dev Hw → CanState
  get_state d =
      if not d.drv.started
      then stopped
      else if sees_error d.hw
      then if hal.in_bus_off_state d.hw
        then bus_off
        else if hal.in_warning_state d.hw
        then error_warning
        else if hal.in_error_passive_state d.hw
        then error_passive
        else error_active
      else error_active

  -- What it writes to `*err_cnt` where `state` is not NULL.
  unfoldable pub get_err_cnt : Dev Hw → ErrCnt
  get_err_cnt d =
      if d.drv.started && sees_error d.hw
      then record {
        tx_err_cnt = hal.transmit_error_count d.hw;
        rx_err_cnt = hal.receive_error_count d.hw;
      }
      else record { tx_err_cnt = 0; rx_err_cnt = 0 }
