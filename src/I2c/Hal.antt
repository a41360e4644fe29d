-- ===== src/I2c/Hal.antt =====
-- What drivers/i2c/i2c_hpmicro.c calls and does not define: the vendor's library with the registers
-- (`Hal`), the target's callbacks (`App`), which do not call the driver, and the kernel (`Os`).
use hpm_support.Prelude.{ℕ, Bool, Option, List}
use hpm_support.Errno.{Errno}
use hpm_support.Zephyr.{Sem, Mutex}
use hpm_support.I2c.Types.{Mode, Event, Events, Ctrl, Call, Dev}

pub record Hal (Hw : Type 0) : Type 0 where
  pub apply_pinctrl : Hw → Option Errno × Hw
  pub irq_config : Hw → Hw
  pub set_up_clock : Hw → Hw
  pub clock_frequency : Hw → ℕ
  -- `i2c_init_slave` and `i2c_init_master` with the frequency, the mode, whether addresses have 10
  -- bits, and the address of the target; the result says whether they succeeded
  pub init_slave : ℕ → Mode → Bool → ℕ → Hw → Bool × Hw
  pub init_master : ℕ → Mode → Bool → Hw → Bool × Hw
  -- `I2C_SOC_TRANSFER_COUNT_MAX`
  pub transfer_count_max : ℕ
  pub enable_irq : List Event → Hw → Hw
  pub disable_irq : List Event → Hw → Hw
  pub enable_10bit_address_mode : Bool → Hw → Hw
  pub get_status : Hw → Events
  pub get_irq_setting : Hw → Events
  pub clear_status : Event → Hw → Hw
  pub get_direction : Hw → ℕ
  -- `I2C_DIR_SLAVE_READ` and `I2C_DIR_MASTER_READ`
  pub dir_slave_read : ℕ
  pub dir_master_read : ℕ
  -- the registers
  pub clear_cmpl : Hw → Hw
  pub clear_fifo : Hw → Hw
  pub set_addr : ℕ → Hw → Hw
  pub set_ctrl : Ctrl → Hw → Hw
  pub set_ctrl_stop_only : Hw → Hw
  pub add_ctrl_stop : Hw → Hw
  pub issue_transmission : Hw → Hw
  -- the count of bytes as both fields of `CTRL` hold it
  pub datacnt_map : ℕ → ℕ
  pub fifo_is_full : Hw → Bool
  pub fifo_is_empty : Hw → Bool
  pub write_byte : ℕ → Hw → Hw
  pub read_byte : Hw → ℕ × Hw

-- The byte that a target's callback gives, which can depend on the calls so far
pub record App : Type 0 where
  pub requested_byte : List Call → ℕ
  pub processed_byte : List Call → ℕ

-- The kernel. The calls that wait take the whole device: `lock_mutex` and `take_completion` are what
-- other threads and the interrupt do until they return.
pub record Os (Hw : Type 0) : Type 0 where
  pub sem_init : ℕ → ℕ → Sem
  pub mutex_init : Mutex
  pub sem_give : Sem → Sem
  pub mutex_unlock : Mutex → Mutex
  pub lock_mutex : Dev Hw → Dev Hw
  pub take_completion : Dev Hw → Dev Hw
