-- ===== src/Gpio/Port.antt =====
-- The port operations of drivers/gpio/gpio_hpmicro.c.
pub mod Masked
use hpm_support.Prelude.{ℕ, Bool, true, false, ◌==◌, if◌then◌else◌, word_or, word_and, word_not}
use hpm_support.Errno.{Status, success}
use hpm_support.Gpio.Types.{Dev, Hal}

-- `(port_val & ~mask) | (mask & value)`
abbrev pub merge : ℕ → ℕ → ℕ → ℕ
merge port mask value = word_or 32 (word_and 32 port (word_not 32 mask)) (word_and 32 mask value)

module _ {Hw Cbs : Type 0} (hal : Hal Hw Cbs) where
  -- `gpio_hpm_port_get_raw`
  unfoldable pub port_get_raw : Dev Hw Cbs → ℕ
  port_get_raw d = hal.read_port d.hw

  -- `gpio_hpm_port_set_masked_raw`
  unfoldable pub port_set_masked_raw : ℕ → ℕ → Dev Hw Cbs → Status × Dev Hw Cbs
  port_set_masked_raw mask value d =
      let port = hal.read_port d.hw in
      let m = word_and 32 mask (hal.output_enable d.hw) in
      if m == 0
      then (success, d)
      else (success, record d { hw = hal.write_port (merge port m value) d.hw })

  -- `gpio_hpm_port_set_bits_raw`
  unfoldable pub port_set_bits_raw : ℕ → Dev Hw Cbs → Status × Dev Hw Cbs
  port_set_bits_raw mask d = (success, record d { hw = hal.set_port_high mask d.hw })

  -- `gpio_hpm_port_clear_bits_raw`
  unfoldable pub port_clear_bits_raw : ℕ → Dev Hw Cbs → Status × Dev Hw Cbs
  port_clear_bits_raw mask d = (success, record d { hw = hal.set_port_low mask d.hw })

  -- `gpio_hpm_port_toggle_bits`
  unfoldable pub port_toggle_bits : ℕ → Dev Hw Cbs → Status × Dev Hw Cbs
  port_toggle_bits mask d = (success, record d { hw = hal.toggle_port mask d.hw })
