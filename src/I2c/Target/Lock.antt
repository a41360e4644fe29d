-- ===== src/I2c/Target/Lock.antt =====
-- The mutex of drivers/i2c/i2c_hpmicro.c around the registration of a target.
use hpm_support.Prelude.{ℕ, ◌+◌, ◌-◌, ◌≡◌, refl, true, none, some, arith, ◌==◌}
use hpm_support.Errno.{success}
use hpm_support.Zephyr.{Mutex}
use hpm_support.I2c.Types.{Target, Dev}
use hpm_support.I2c.Hal.{Hal, Os}
use hpm_support.I2c.Target.{slave_register, slave_unregister}

-- The calls of one thread, with no other that uses the device: a mutex that it holds or that is free
-- is locked once more, and an unlock takes one lock away.
pub record OneThread {Hw : Type 0} (os : Os Hw) : Type 0 where
  pub lock_lem :
      (d : Dev Hw)
      → os.lock_mutex d ≡ record d { mutex = record { lock_count = d.mutex.lock_count + 1 } }
  pub unlock_lem : (m : Mutex) → os.mutex_unlock m ≡ record { lock_count = m.lock_count - 1 }

==_self : (a : ℕ) → (a == a) ≡ true
==_self a = ground arith

module _ {Hw : Type 0} (hal : Hal Hw) (os : Os Hw) where
  -- A target that is registered while the mutex is free stays registered, whether or not the unit
  -- could be initialised, and the mutex stays locked. When the thread has unregistered the target
  -- again, which returns 0, no target is registered and the mutex is still locked once.
  pub slave_unregister-slave_register :
      (t : Target) (d : Dev Hw)
      → OneThread os
      → d.slave ≡ none
      → d.mutex.lock_count ≡ 0
      → (let r = slave_register hal os (some t) d in
          let u = slave_unregister hal os (some t) r.1 in
          (r.1.slave ≡ some t)
          × (r.1.mutex.lock_count ≡ 1)
          × (u.0 ≡ success)
          × (u.1.slave ≡ none)
          × (u.1.mutex.lock_count ≡ 1))
  unfolding slave_register slave_unregister
  slave_unregister-slave_register t d one e m =
      simp (one.lock_lem, e, ==_self t.id, one.unlock_lem, m)
        (refl, omega arith, refl, refl, omega arith)
