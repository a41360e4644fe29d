-- ===== src/I2c/Target.antt =====
-- `hpmicro_i2c_slave_register` and `hpmicro_i2c_slave_unregister`; `none` stands for NULL.
pub mod Lock
use hpm_support.Prelude.{Bool, Option, none, some, ◌==◌, if◌then◌else◌}
use hpm_support.Errno.{Status, success, err, einval, ebusy}
use hpm_support.I2c.Types.{Target, normal_mode, Dev}
use hpm_support.I2c.Hal.{Hal, Os}
use hpm_support.I2c.Config.{init_unit, unlock}

module _ {Hw : Type 0} (hal : Hal Hw) (os : Os Hw) where
  -- `hpmicro_i2c_slave_register` with the mutex locked, by the target that is registered
  abbrev pub register_locked : Option Target → Target → Dev Hw → Status × Dev Hw
  register_locked (some old) t d = (err ebusy, unlock hal os d)
  register_locked none t d =
      init_unit hal (some t) normal_mode t.ten_bit (record d { slave = some t })

  -- `hpmicro_i2c_slave_register`
  unfoldable pub slave_register : Option Target → Dev Hw → Status × Dev Hw
  slave_register none d = (err einval, d)
  slave_register (some t) d = let l = os.lock_mutex d in register_locked l.slave t l

  abbrev pub is_target : Option Target → Target → Bool
  is_target none t = Bool.false
  is_target (some s) t = s.id == t.id

  -- `hpmicro_i2c_slave_unregister`
  unfoldable pub slave_unregister : Option Target → Dev Hw → Status × Dev Hw
  slave_unregister none d = (err einval, d)
  slave_unregister (some t) d =
      if is_target d.slave t
      then (success, unlock hal os (record (os.lock_mutex d) { slave = none }))
      else (err einval, d)
