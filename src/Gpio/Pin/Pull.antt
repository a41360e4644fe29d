-- ===== src/Gpio/Pin/Pull.antt =====
-- The pull resistors that `gpio_hpm_configure` is asked for.
use hpm_support.Prelude.{ℕ, ◌≡◌, Bool, false, ◌&&◌}
use hpm_support.Gpio.Types.{Flags, Dev, Hal}
use hpm_support.Gpio.Pin.{configure}

module _ {Hw Cbs : Type 0} (hal : Hal Hw Cbs) where
  -- A pull-up or a pull-down alone is accepted and has no effect.
  pub configure-ignores_pull :
      (pin : ℕ) (f : Flags) (up down : Bool) (d : Dev Hw Cbs)
      → (up && down) ≡ false
      → (f.pull_up && f.pull_down) ≡ false
      → configure hal pin (record f { pull_up = up; pull_down = down }) d ≡ configure hal pin f d
  unfolding configure
  configure-ignores_pull pin f up down d h h' = rw (h, h')
