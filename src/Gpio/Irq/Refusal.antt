-- ===== src/Gpio/Irq/Refusal.antt =====
-- The triggers that `gpio_hpm_pin_interrupt_configure` refuses.
use hpm_support.Prelude.{ap, ℕ, ◌≡◌, ◌↔◌, refl}
use hpm_support.Errno.{err, enotsup}
use hpm_support.Gpio.Types.{IntMode, disabled, level, edge, IntTrig, low, high, both, Dev, Hal}
use hpm_support.Gpio.Irq.{trigger_of, pin_interrupt_configure}

-- A trigger on a low and high level, or on both edges, or that the driver does not name.
pub data IsTwoSided : IntTrig → Type 0 where
  both_sides : IsTwoSided both
  unnamed : IsTwoSided IntTrig.other

-- A mode with a trigger.
pub data IsTriggered : IntMode → Type 0 where
  by_level : IsTriggered level
  by_edge : IsTriggered edge

module _ {Hw Cbs : Type 0} (hal : Hal Hw Cbs) where
  -- The call is refused, with the device as before, just for a level or edge mode with a trigger
  -- other than low and high.
  pub pin_interrupt_configure-refused :
      (pin : ℕ) (mode : IntMode) (trig : IntTrig) (d : Dev Hw Cbs)
      → (pin_interrupt_configure hal pin mode trig d ≡ (err enotsup, d))
        ↔ (IsTriggered mode × IsTwoSided trig)
  unfolding pin_interrupt_configure trigger_of
  pin_interrupt_configure-refused pin level low d = (λ e. cc (ap (λ x. x.0) e), λ h. elim (h.1) [ ])
  pin_interrupt_configure-refused pin level high d =
      (λ e. cc (ap (λ x. x.0) e), λ h. elim (h.1) [ ])
  pin_interrupt_configure-refused pin level both d = (λ e. (by_level, both_sides), λ h. refl)
  pin_interrupt_configure-refused pin level IntTrig.other d = (λ e. (by_level, unnamed), λ h. refl)
  pin_interrupt_configure-refused pin edge low d = (λ e. cc (ap (λ x. x.0) e), λ h. elim (h.1) [ ])
  pin_interrupt_configure-refused pin edge high d = (λ e. cc (ap (λ x. x.0) e), λ h. elim (h.1) [ ])
  pin_interrupt_configure-refused pin edge both d = (λ e. (by_edge, both_sides), λ h. refl)
  pin_interrupt_configure-refused pin edge IntTrig.other d = (λ e. (by_edge, unnamed), λ h. refl)
  pin_interrupt_configure-refused pin disabled trig d =
      (λ e. cc (ap (λ x. x.0) e), λ h. elim (h.0) [ ])
  pin_interrupt_configure-refused pin IntMode.other trig d =
      (λ e. cc (ap (λ x. x.0) e), λ h. elim (h.0) [ ])
