-- ===== src/Can/Hal.antt =====
-- What drivers/can/can_hpmicro.c calls and does not define: the vendor's CAN library with the
-- registers (`Hal`), and the kernel (`Os`). A call that may block is given the whole device, since
-- other threads and the interrupt handler run while it waits.
use hpm_support.Prelude.{ℕ, Bool, true, false, Option, List, ◌+◌, ◌-◌, ◌<◌, ◌≡◌, min}
use hpm_support.Errno.{Errno}
use hpm_support.Zephyr.{Sem, Mutex, Timeout, no_wait}
use hpm_support.Can.Types.{
  Config, FilterConfig, NodeMode, RxBuf, TxBuf, TxRxFlags, ErrorFlags, CanState, Dev,
}

-- The status of `can_send_message_nonblocking`.
pub data TxStatus : Type 0 where
  sent tx_fifo_full failed : TxStatus

pub record Hal (Hw : Type 0) : Type 0 where
  pub apply_pinctrl : Hw → Option Errno × Hw
  pub set_source_divider : Hw → Hw
  pub clock_freq : Hw → ℕ
  pub irq_config : Hw → Hw
  pub default_config : Config
  -- `can_init(can, config, freq)`: whether it reported success
  pub init : Config → List FilterConfig → ℕ → Hw → Bool × Hw
  pub deinit : Hw → Hw
  pub set_node_mode : NodeMode → Hw → Hw
  pub read_message : Hw → RxBuf × Hw
  pub data_available : Hw → Bool
  pub tx_rx_flags : Hw → TxRxFlags
  pub clear_tx_rx_flags : TxRxFlags → Hw → Hw
  pub error_flags : Hw → ErrorFlags
  pub clear_error_flags : ErrorFlags → Hw → Hw
  pub in_bus_off : Hw → Bool
  pub transmit_error_count : Hw → ℕ
  pub receive_error_count : Hw → ℕ
  pub stb_empty : Hw → Bool
  -- the word of `can_transmit_buf_t.buffer` at an index, as its union lays the fields out
  pub tx_word : TxBuf → ℕ → ℕ
  pub write_tbuf : ℕ → ℕ → Hw → Hw
  pub select_tx_buffer : Bool → Hw → Hw
  pub switch_to_next_tx_buffer : Hw → Hw
  pub start_all_message_transmit : Hw → Hw
  pub send_message_nonblocking : TxBuf → Hw → TxStatus × Hw
  pub dlc_to_bytes : ℕ → ℕ
  -- `CAN_MAX_DLC` and `CANFD_MAX_DLC`
  pub max_dlc : ℕ
  pub max_dlc_fd : ℕ
  -- what an uninitialised local variable holds
  pub uninit_payload : Hw → List ℕ
  pub uninit_state : Hw → CanState

-- The kernel. The Boolean of a call that waits says whether it returned 0.
pub record Os (Hw : Type 0) : Type 0 where
  pub sem_init : ℕ → ℕ → Sem
  pub mutex_init : Mutex
  pub sem_give : Sem → Sem
  pub mutex_unlock : Mutex → Mutex
  pub take_tx_sem : Timeout → Dev Hw → Bool × Dev Hw
  pub lock_tx_mutex : Timeout → Dev Hw → Bool × Dev Hw
  pub take_tx_fin_sem : Timeout → Dev Hw → Bool × Dev Hw
  pub lock_inst_mutex : Timeout → Dev Hw → Bool × Dev Hw

abbrev pub put_tx_sem : {Hw : Type 0} → Sem → Dev Hw → Dev Hw
put_tx_sem s d = record d { drv = record (d.drv) { tx_sem = s } }

abbrev pub put_tx_fin_sem : {Hw : Type 0} → Sem → Dev Hw → Dev Hw
put_tx_fin_sem s d = record d { drv = record (d.drv) { tx_fin_sem = s } }

abbrev pub put_tx_mutex : {Hw : Type 0} → Mutex → Dev Hw → Dev Hw
put_tx_mutex m d = record d { drv = record (d.drv) { tx_mutex = m } }

abbrev pub put_inst_mutex : {Hw : Type 0} → Mutex → Dev Hw → Dev Hw
put_inst_mutex m d = record d { drv = record (d.drv) { inst_mutex = m } }

-- A semaphore with one unit less.
abbrev pub taken : Sem → Sem
taken s = record s { count = s.count - 1 }

abbrev pub locked : Mutex → Mutex
locked m = record m { lock_count = m.lock_count + 1 }

-- What the kernel documents of these calls where nothing has to be waited for: a semaphore is
-- counted up to its limit, a free object is taken at once and nothing else changes.
pub record OsLaws {Hw : Type 0} (os : Os Hw) : Type 0 where
  pub sem_init_lem : (c l : ℕ) → os.sem_init c l ≡ record { count = c; limit = l }
  pub mutex_init_lem : os.mutex_init ≡ record { lock_count = 0 }
  pub sem_give_lem : (s : Sem) → os.sem_give s ≡ record s { count = min (s.count + 1) s.limit }
  pub mutex_unlock_lem :
      (m : Mutex) → os.mutex_unlock m ≡ record m { lock_count = m.lock_count - 1 }
  pub take_tx_sem_lem :
      (t : Timeout) (d : Dev Hw)
      → 0 < d.drv.tx_sem.count
      → os.take_tx_sem t d ≡ (true, put_tx_sem (taken d.drv.tx_sem) d)
  pub take_tx_sem_busy :
      (d : Dev Hw) → d.drv.tx_sem.count ≡ 0 → os.take_tx_sem no_wait d ≡ (false, d)
  pub lock_tx_mutex_lem :
      (t : Timeout) (d : Dev Hw)
      → d.drv.tx_mutex.lock_count ≡ 0
      → os.lock_tx_mutex t d ≡ (true, put_tx_mutex (locked d.drv.tx_mutex) d)
  pub take_tx_fin_sem_lem :
      (t : Timeout) (d : Dev Hw)
      → 0 < d.drv.tx_fin_sem.count
      → os.take_tx_fin_sem t d ≡ (true, put_tx_fin_sem (taken d.drv.tx_fin_sem) d)
  pub lock_inst_mutex_lem :
      (t : Timeout) (d : Dev Hw)
      → d.drv.inst_mutex.lock_count ≡ 0
      → os.lock_inst_mutex t d ≡ (true, put_inst_mutex (locked d.drv.inst_mutex) d)
