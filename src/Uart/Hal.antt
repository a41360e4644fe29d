-- ===== src/Uart/Hal.antt =====
-- What drivers/serial/uart_hpmicro.c calls and does not define: the vendor's library with the
-- registers, the pin and DMA interfaces of Zephyr (`Hal`), and the application's callback (`App`).
use hpm_support.Prelude.{ℕ, Bool, Option, ◌+◌, ◌-◌, ◌%◌}
use hpm_support.Errno.{Errno, Status}
use hpm_support.Uart.Types.{Device, DmaBlock, Event, Dev}

-- `uart_config_t` of the vendor's library; the enumerations by their numbers in the library.
pub record SdkConfig : Type 0 where
  pub src_freq_in_hz : ℕ
  pub baudrate : ℕ
  pub fifo_enable : Bool
  pub dma_enable : Bool
  pub tx_fifo_level : ℕ
  pub rx_fifo_level : ℕ
  pub parity : ℕ
  pub word_length : ℕ
  pub num_of_stop_bits : ℕ
  pub auto_flow_ctrl_en : Bool

pub record Hal (Hw : Type 0) : Type 0 where
  pub apply_pinctrl : Hw → Option Errno × Hw
  pub irq_config : Hw → Hw
  pub set_up_clock : Hw → Hw
  pub clock_frequency : Hw → ℕ
  pub default_config : SdkConfig
  pub parity_none : ℕ
  pub parity_odd : ℕ
  pub parity_even : ℕ
  -- `word_length_*_bits` and `stop_bits_*`
  pub word_length_5_bits : ℕ
  pub word_length_6_bits : ℕ
  pub word_length_7_bits : ℕ
  pub word_length_8_bits : ℕ
  pub stop_bits_1 : ℕ
  pub stop_bits_1_5 : ℕ
  pub stop_bits_2 : ℕ
  pub tx_fifo_trg_not_full : ℕ
  pub rx_fifo_trg_gt_three_quarters : ℕ
  pub enable_loopback : Hw → Hw
  pub disable_loopback : Hw → Hw
  -- `uart_init` with its `hpm_stat_t`, 0 for success
  pub init : SdkConfig → Hw → ℕ × Hw
  -- `uart_receive_byte`: whether it succeeded, and the byte
  pub receive_byte : Hw → (Bool × ℕ) × Hw
  pub send_byte : ℕ → Hw → Hw
  pub transmitter_empty : Hw → Bool
  pub data_ready : Hw → Bool
  -- the bits OE and DR of `LSR`, and a read of `RBR`
  pub overrun : Hw → Bool
  pub read_rbr : Hw → Hw
  pub reset_rx_fifo : Hw → Hw
  pub reset_tx_fifo : Hw → Hw
  pub irq_enable : Hw → Hw
  pub enable_tx_irq : Hw → Hw
  pub disable_tx_irq : Hw → Hw
  pub enable_rx_irq : Hw → Hw
  pub disable_rx_irq : Hw → Hw
  -- `uart_get_irq_id`, and the identifications of the two receive interrupts and of the transmitter
  pub irq_id : Hw → ℕ
  pub id_rx_data_avail : ℕ
  pub id_rx_timeout : ℕ
  pub id_tx_slot_avail : ℕ
  pub rbr_address : ℕ
  pub thr_address : ℕ
  pub dma_config : Device → ℕ → DmaBlock → Hw → Status × Hw
  pub dma_start : Device → ℕ → Hw → Status × Hw
  pub dma_stop : Device → ℕ → Hw → Status × Hw
  pub dma_suspend : Device → ℕ → Hw → Status × Hw
  pub dma_resume : Device → ℕ → Hw → Status × Hw
  -- the status and `pending_length` of a channel, which is what the memory held on a failure
  pub dma_get_status : Device → ℕ → Hw → (Status × ℕ) × Hw

-- The application: what its callback, by address and user data, does on an event. It can call the
-- driver.
pub record App (Hw : Type 0) : Type 0 where
  pub on_event : ℕ → ℕ → Event → Dev Hw → Dev Hw

-- The sums and differences of `uint32_t` and `size_t`
abbrev pub word : ℕ
word = 4294967296

abbrev pub add32 : ℕ → ℕ → ℕ
add32 a b = (a + b) % word

abbrev pub sub32 : ℕ → ℕ → ℕ
sub32 a b = (a + (word - b % word)) % word
