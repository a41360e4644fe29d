-- ===== src/I2c/Config.antt =====
-- Initialisation and configuration.
use hpm_support.Prelude.{Bool, false, Option, none, some, if◌then◌else◌}
use hpm_support.Errno.{Errno, Status, success, err, einval, enotsup}
use hpm_support.I2c.Types.{
  Speed, standard, fast, fast_plus, high, ultra, other, DevConfig, Mode, normal_mode, fast_mode,
  fast_plus_mode, Target, Dev,
}
use hpm_support.I2c.Hal.{Hal, Os}

module _ {Hw : Type 0} (hal : Hal Hw) where
  abbrev pub init_result : Bool × Hw → Dev Hw → Status × Dev Hw
  init_result (done, hw) d = (if done then success else err einval, record d { hw = hw })

  abbrev pub init_unit : Option Target → Mode → Bool → Dev Hw → Status × Dev Hw
  init_unit none mode ten_bit d =
      init_result (hal.init_master (hal.clock_frequency d.hw) mode ten_bit d.hw) d
  init_unit (some t) mode ten_bit d =
      init_result (hal.init_slave (hal.clock_frequency d.hw) mode ten_bit t.address d.hw) d

  -- The `switch` of `hpmicro_i2c_set_bus_speed` and what follows it
  unfoldable pub at_speed : Speed → Bool → Dev Hw → Status × Dev Hw
  at_speed standard ten_bit d = init_unit d.slave normal_mode ten_bit d
  at_speed fast ten_bit d = init_unit d.slave fast_mode ten_bit d
  at_speed fast_plus ten_bit d = init_unit d.slave fast_plus_mode ten_bit d
  at_speed high ten_bit d = (err enotsup, d)
  at_speed ultra ten_bit d = (err enotsup, d)
  at_speed other ten_bit d = (err einval, d)

  -- `hpmicro_i2c_set_bus_speed`
  unfoldable pub set_bus_speed : DevConfig → Dev Hw → Status × Dev Hw
  unfolding at_speed
  set_bus_speed c d = at_speed c.speed c.ten_bit (record d { hw = hal.set_up_clock d.hw })

  module _ (os : Os Hw) where
    abbrev pub unlock : Dev Hw → Dev Hw
    unlock d = record d { mutex = os.mutex_unlock d.mutex }

    -- `hpmicro_i2c_configure`
    unfoldable pub configure : DevConfig → Dev Hw → Status × Dev Hw
    unfolding set_bus_speed
    configure c d = let (ret, d') = set_bus_speed c (os.lock_mutex d) in (ret, unlock d')

    -- `hpmicro_i2c_init` once the pins are set
    unfoldable pub after_pins : Option Errno → Dev Hw → Status × Dev Hw
    unfolding set_bus_speed
    after_pins (some e) d = (err e, d)
    after_pins none d =
        let d' = (set_bus_speed (record { speed = standard; ten_bit = false }) d).1 in
        (
          success,
          record d' {
            mutex = os.mutex_init;
            completion = os.sem_init 0 1;
            hw = hal.irq_config d'.hw;
          },
        )

    -- `hpmicro_i2c_init`
    unfoldable pub init : Dev Hw → Status × Dev Hw
    unfolding after_pins
    init d = let (e, hw) = hal.apply_pinctrl d.hw in after_pins e (record d { hw = hw })
