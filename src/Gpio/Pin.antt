-- ===== src/Gpio/Pin.antt =====
-- `gpio_hpm_configure` of drivers/gpio/gpio_hpmicro.c.
pub mod Pull
use hpm_support.Prelude.{ℕ, Bool, true, false, ◌&&◌, if◌then◌else◌}
use hpm_support.Errno.{Status, success, err, enotsup}
use hpm_support.Gpio.Types.{Flags, Dev, Hal}

module _ {Hw Cbs : Type 0} (hal : Hal Hw Cbs) where
  -- The level that an output starts with.
  abbrev pub init_level : ℕ → Flags → Hw → Hw
  init_level pin f hw =
      if f.init_high
      then hal.write_pin pin true hw
      else if f.init_low
      then hal.write_pin pin false hw
      else hw

  -- `gpio_hpm_configure`; the result of the pin settings is only logged.
  unfoldable pub configure : ℕ → Flags → Dev Hw Cbs → Status × Dev Hw Cbs
  configure pin f d =
      let p : Dev Hw Cbs = record d { hw = hal.apply_pins d.hw } in
      if f.input && f.output
      then (err enotsup, p)
      else if f.single_ended
      then (err enotsup, p)
      else if f.pull_up && f.pull_down
      then (err enotsup, p)
      else if f.input && f.output
      then (err enotsup, p)
      else if f.output
      then (success, record p { hw = init_level pin f (hal.set_pin_output pin p.hw) })
      else (success, record p { hw = hal.set_pin_input pin p.hw })
