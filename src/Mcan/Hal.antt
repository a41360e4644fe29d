-- ===== src/Mcan/Hal.antt =====
-- What drivers/can/mcan_hpmicro.c calls and does not define: the vendor's MCAN library with the
-- registers (`Hal`), and the kernel (`Os`).
use hpm_support.Prelude.{ℕ, Bool, true, Option, List, ◌+◌, ◌-◌, ◌<◌, ◌≡◌, min}
use hpm_support.Errno.{Errno}
use hpm_support.Zephyr.{Sem, Mutex, Timeout}
use hpm_support.Can.Hal.{taken, locked}
use hpm_support.Mcan.Types.{FilterElem, RxMessage, TxFrame, Config, Dev}

pub record Hal (Hw : Type 0) : Type 0 where
  pub apply_pinctrl : Hw → Option Errno × Hw
  -- `MCAN_SOC_MSG_BUF_IN_AHB_RAM`, and `mcan_set_msg_buf_attr` with whether it succeeded
  pub buf_in_ahb_ram : Bool
  pub set_msg_buf_attr : Hw → Bool × Hw
  pub default_config : Config
  pub set_up_clock : Hw → Hw
  pub clock_freq : Hw → ℕ
  pub irq_config : Hw → Hw
  -- `mcan_init` with the extended and the standard filters
  pub init : Config → List FilterElem → List FilterElem → ℕ → Hw → Bool × Hw
  pub deinit : Hw → Hw
  -- the bits MON and TEST of `CCCR`, and LBCK of `TEST`
  pub set_mon : Hw → Hw
  pub set_mon_test : Hw → Hw
  pub set_loopback : Hw → Hw
  pub clear_mon_test : Hw → Hw
  pub read_rxfifo : ℕ → Hw → RxMessage × Hw
  pub read_rxbuf : ℕ → Hw → RxMessage × Hw
  pub rxbuf_size : ℕ
  pub rxbuf_available : ℕ → Hw → Bool
  pub clear_rxbuf_available : ℕ → Hw → Hw
  pub interrupt_flags : Hw → ℕ
  pub clear_interrupt_flags : ℕ → Hw → Hw
  -- `MCAN_INT_*` and `MCAN_EVENT_*`
  pub int_rxfifo0_new_msg : ℕ
  pub int_rxfifo1_new_msg : ℕ
  pub int_msg_store_to_rxbuf : ℕ
  pub event_transmit : ℕ
  pub event_error : ℕ
  pub in_bus_off_state : Hw → Bool
  pub in_warning_state : Hw → Bool
  pub in_error_passive_state : Hw → Bool
  pub transmit_error_count : Hw → ℕ
  pub receive_error_count : Hw → ℕ
  -- `mcan_transmit_via_txbuf_nonblocking` on buffer 0, with whether it succeeded
  pub transmit_via_txbuf : TxFrame → Hw → Bool × Hw
  pub dlc_to_bytes : ℕ → ℕ
  -- `CAN_MAX_DLC`, `CANFD_MAX_DLC` and the length of a frame's payload
  pub max_dlc : ℕ
  pub max_dlc_fd : ℕ
  pub max_dlen : ℕ
  -- `1U << i` and `BIT(i)` as compiled, which C defines for `i` below 32 only
  pub shift_one : ℕ → ℕ

-- The kernel. The Boolean of a call that waits says whether it returned 0; `spin` is what other
-- threads and the interrupt do in one turn of an empty loop.
pub record Os (Hw : Type 0) : Type 0 where
  pub sem_init : ℕ → ℕ → Sem
  pub mutex_init : Mutex
  pub sem_give : Sem → Sem
  pub mutex_unlock : Mutex → Mutex
  pub take_tx_sem : Timeout → Dev Hw → Bool × Dev Hw
  pub lock_tx_mutex : Timeout → Dev Hw → Bool × Dev Hw
  pub take_tx_fin_sem : Timeout → Dev Hw → Bool × Dev Hw
  pub lock_inst_mutex : Timeout → Dev Hw → Bool × Dev Hw
  pub spin : Dev Hw → Dev Hw

abbrev pub put_tx_sem : {Hw : Type 0} → Sem → Dev Hw → Dev Hw
put_tx_sem s d = record d { drv = record (d.drv) { tx_sem = s } }

abbrev pub put_tx_fin_sem : {Hw : Type 0} → Sem → Dev Hw → Dev Hw
put_tx_fin_sem s d = record d { drv = record (d.drv) { tx_fin_sem = s } }

abbrev pub put_tx_mutex : {Hw : Type 0} → Mutex → Dev Hw → Dev Hw
put_tx_mutex m d = record d { drv = record (d.drv) { tx_mutex = m } }

abbrev pub put_inst_mutex : {Hw : Type 0} → Mutex → Dev Hw → Dev Hw
put_inst_mutex m d = record d { drv = record (d.drv) { inst_mutex = m } }

-- What the kernel documents of these calls where nothing has to be waited for.
pub record OsLaws {Hw : Type 0} (os : Os Hw) : Type 0 where
  pub sem_init_lem : (c l : ℕ) → os.sem_init c l ≡ record { count = c; limit = l }
  pub sem_give_lem : (s : Sem) → os.sem_give s ≡ record s { count = min (s.count + 1) s.limit }
  pub mutex_unlock_lem :
      (m : Mutex) → os.mutex_unlock m ≡ record m { lock_count = m.lock_count - 1 }
  pub take_tx_sem_lem :
      (t : Timeout) (d : Dev Hw)
      → 0 < d.drv.tx_sem.count
      → os.take_tx_sem t d ≡ (true, put_tx_sem (taken d.drv.tx_sem) d)
  pub lock_tx_mutex_lem :
      (t : Timeout) (d : Dev Hw)
      → d.drv.tx_mutex.lock_count ≡ 0
      → os.lock_tx_mutex t d ≡ (true, put_tx_mutex (locked d.drv.tx_mutex) d)
  pub take_tx_fin_sem_lem :
      (t : Timeout) (d : Dev Hw)
      → 0 < d.drv.tx_fin_sem.count
      → os.take_tx_fin_sem t d ≡ (true, put_tx_fin_sem (taken d.drv.tx_fin_sem) d)
  pub lock_inst_mutex_lem :
      (t : Timeout) (d : Dev Hw)
      → d.drv.inst_mutex.lock_count ≡ 0
      → os.lock_inst_mutex t d ≡ (true, put_inst_mutex (locked d.drv.inst_mutex) d)
