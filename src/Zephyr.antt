-- ===== src/Zephyr.antt =====
-- The kernel objects of Zephyr that the drivers hold. A semaphore and a mutex are read by what
-- `k_sem_count_get` and `struct k_mutex` show of them; what the kernel's calls do to them is a
-- parameter of each driver's model.
use hpm_support.Prelude.{ℕ}

pub record Sem : Type 0 where
  pub count : ℕ
  pub limit : ℕ

pub record Mutex : Type 0 where
  pub lock_count : ℕ

-- `k_timeout_t`
pub data Timeout : Type 0 where
  no_wait : Timeout
  ticks : ℕ → Timeout
  forever : Timeout
