-- ===== src/Gpio/Irq.antt =====
-- The interrupts of drivers/gpio/gpio_hpmicro.c.
pub mod Refusal
use hpm_support.Prelude.{ℕ, Bool, Option, none, some}
use hpm_support.Errno.{Status, success, err, enotsup}
use hpm_support.Gpio.Types.{
  IntMode, disabled, level, edge, IntTrig, low, high, both, Trigger, no_trigger, level_low,
  level_high, edge_falling, edge_rising, Dev, Hal,
}

-- The trigger of a mode; `none` is the return with -ENOTSUP.
unfoldable pub trigger_of : IntMode → IntTrig → Option Trigger
trigger_of level low = some level_low
trigger_of level high = some level_high
trigger_of level both = none
trigger_of level IntTrig.other = none
trigger_of edge low = some edge_falling
trigger_of edge high = some edge_rising
trigger_of edge both = none
trigger_of edge IntTrig.other = none
trigger_of disabled t = some no_trigger
trigger_of IntMode.other t = some no_trigger

module _ {Hw Cbs : Type 0} (hal : Hal Hw Cbs) where
  -- The end of the function, once the trigger is known.
  abbrev pub put_interrupt : ℕ → IntMode → Trigger → Hw → Hw
  put_interrupt pin disabled t hw = hal.disable_pin_interrupt pin hw
  put_interrupt pin level t hw = hal.enable_pin_interrupt pin (hal.config_pin_interrupt pin t hw)
  put_interrupt pin edge t hw = hal.enable_pin_interrupt pin (hal.config_pin_interrupt pin t hw)
  put_interrupt pin IntMode.other t hw =
      hal.enable_pin_interrupt pin (hal.config_pin_interrupt pin t hw)

  -- `gpio_hpm_pin_interrupt_configure`
  unfoldable pub pin_interrupt_configure : ℕ → IntMode → IntTrig → Dev Hw Cbs → Status × Dev Hw Cbs
  unfolding trigger_of
  pin_interrupt_configure pin mode trig d = elim (trigger_of mode trig) [
    | none ↦ (err enotsup, d)
    | some t ↦ (success, record d { hw = put_interrupt pin mode t d.hw })
  ]

  -- `gpio_hpm_manage_callback`
  unfoldable pub manage_callback : ℕ → Bool → Dev Hw Cbs → Status × Dev Hw Cbs
  manage_callback callback set d =
      let (st, cbs) = hal.manage_callback callback set d.callbacks in
      (st, record d { callbacks = cbs })

  -- `gpio_hpm_port_isr`
  unfoldable pub port_isr : Dev Hw Cbs → Dev Hw Cbs
  port_isr d =
      let status = hal.interrupt_flags d.hw in
      hal.fire_callbacks status (record d { hw = hal.write_interrupt_flags status d.hw })
