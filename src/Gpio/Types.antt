-- ===== src/Gpio/Types.antt =====
-- The data of drivers/gpio/gpio_hpmicro.c, and what it calls and does not define (`Hal`).
use hpm_support.Prelude.{ℕ, Bool}
use hpm_support.Errno.{Status}

-- `gpio_flags_t`, by the flags that the driver tests.
pub record Flags : Type 0 where
  pub input : Bool
  pub output : Bool
  pub single_ended : Bool
  pub pull_up : Bool
  pub pull_down : Bool
  pub init_high : Bool
  pub init_low : Bool

-- `enum gpio_int_mode` and `enum gpio_int_trig`; `other` are the values that the driver does not
-- name.
pub data IntMode : Type 0 where
  disabled level edge other : IntMode

pub data IntTrig : Type 0 where
  low high both other : IntTrig

-- `gpio_interrupt_trigger_t`; `no_trigger` is the value 0 that the variable starts with.
pub data Trigger : Type 0 where
  no_trigger level_low level_high edge_falling edge_rising : Trigger

-- A device: the registered callbacks (`data->callbacks`) and the unit.
pub record Dev (Hw Cbs : Type 0) : Type 0 where
  pub callbacks : Cbs
  pub hw : Hw

-- The vendor's library at the driver's port, Zephyr's list of callbacks, and the pin settings.
pub record Hal (Hw Cbs : Type 0) : Type 0 where
  pub apply_pins : Hw → Hw
  pub set_pin_input : ℕ → Hw → Hw
  pub set_pin_output : ℕ → Hw → Hw
  pub write_pin : ℕ → Bool → Hw → Hw
  pub read_port : Hw → ℕ
  pub write_port : ℕ → Hw → Hw
  -- `OE[port].CLEAR` as it reads
  pub output_enable : Hw → ℕ
  pub set_port_high : ℕ → Hw → Hw
  pub set_port_low : ℕ → Hw → Hw
  pub toggle_port : ℕ → Hw → Hw
  pub disable_pin_interrupt : ℕ → Hw → Hw
  pub config_pin_interrupt : ℕ → Trigger → Hw → Hw
  pub enable_pin_interrupt : ℕ → Hw → Hw
  -- `IF[port].VALUE` read and written
  pub interrupt_flags : Hw → ℕ
  pub write_interrupt_flags : ℕ → Hw → Hw
  pub manage_callback : ℕ → Bool → Cbs → Status × Cbs
  pub fire_callbacks : ℕ → Dev Hw Cbs → Dev Hw Cbs
