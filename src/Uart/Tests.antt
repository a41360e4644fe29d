-- ===== src/Uart/Tests.antt =====
-- Runs of drivers/serial/uart_hpmicro.c on a simulated unit, and the instances of its theorems.
use hpm_support.Prelude.{
  ℕ, is_empty, ◌≡◌, refl, Bool, true, false, not, none, some, List, [], ◌∷◌, arith, ◌%◌, length,
  take, drop, replicate,
}
use hpm_support.Errno.{success}
use hpm_support.Uart.Types.{
  memory_to_peripheral, dma_tx_dev, no_parity, bits_8, bits_9, one, no_flow_ctrl, UartCfg, DmaInfo,
  tx_done, rx_buf_request, rx_buf_released, rx_disabled, Diag, Dev,
}
use hpm_support.Uart.Hal.{Hal, App}
use hpm_support.Uart.Poll.{fifo_read}
use hpm_support.Uart.Poll.Fifo.{FifoLaws, stored, fifo_read-held}
use hpm_support.Uart.Config.{requested}
use hpm_support.Uart.Config.Accepted.{IsSupported}
use hpm_support.Uart.Tx.{tx}
use hpm_support.Uart.Tx.Complete.{TxLaws, tx-dma_callback}
use hpm_support.Uart.Isr.{rx_done, dma_callback}
use hpm_support.Uart.Isr.Stream.{DmaLaws, IsSynced, Reports, timeouts, timeouts-Reports}
use hpm_support.Uart.Isr.Disable.{AppLaws}
use hpm_support.Uart.Isr.Finish.{reported_released, rx_done-started, rx_done-disabled}

-- The bytes in the receiver, and how many the receive channel has yet to write.
abbrev Sim : Type 0
Sim = List ℕ × ℕ

abbrev pop : List ℕ → (Bool × ℕ) × List ℕ
pop [] = ((false, 0), [])
pop (b ∷ bs) = ((true, b), bs)

abbrev hal : Hal Sim
hal = record {
  apply_pinctrl = λ w. (none, w);
  irq_config = λ w. w;
  set_up_clock = λ w. w;
  clock_frequency = λ w. 24000000;
  default_config = record {
    src_freq_in_hz = 0;
    baudrate = 115200;
    fifo_enable = false;
    dma_enable = false;
    tx_fifo_level = 0;
    rx_fifo_level = 0;
    parity = 0;
    word_length = 3;
    num_of_stop_bits = 0;
    auto_flow_ctrl_en = false;
  };
  parity_none = 0;
  parity_odd = 1;
  parity_even = 2;
  word_length_5_bits = 0;
  word_length_6_bits = 1;
  word_length_7_bits = 2;
  word_length_8_bits = 3;
  stop_bits_1 = 0;
  stop_bits_1_5 = 1;
  stop_bits_2 = 2;
  tx_fifo_trg_not_full = 0;
  rx_fifo_trg_gt_three_quarters = 3;
  enable_loopback = λ w. w;
  disable_loopback = λ w. w;
  init = λ c w. (0, w);
  receive_byte = λ w. let (r, bs) = pop w.0 in (r, (bs, w.1));
  send_byte = λ b w. w;
  transmitter_empty = λ w. true;
  data_ready = λ w. not (is_empty w.0);
  overrun = λ w. false;
  read_rbr = λ w. ((pop w.0).1, w.1);
  reset_rx_fifo = λ w. ([], w.1);
  reset_tx_fifo = λ w. w;
  irq_enable = λ w. w;
  enable_tx_irq = λ w. w;
  disable_tx_irq = λ w. w;
  enable_rx_irq = λ w. w;
  disable_rx_irq = λ w. w;
  irq_id = λ w. 12;
  id_rx_data_avail = 4;
  id_rx_timeout = 12;
  id_tx_slot_avail = 2;
  rbr_address = 4096;
  thr_address = 4096;
  dma_config = λ v c b w. (success, w);
  dma_start = λ v c w. (success, w);
  dma_stop = λ v c w. (success, w);
  dma_suspend = λ v c w. (success, w);
  dma_resume = λ v c w. (success, w);
  dma_get_status = λ v c w. ((success, w.1), w);
}

abbrev app : App Sim
app = record { on_event = λ cb arg e d. d }

abbrev left : Sim → ℕ
left w = w.1

abbrev held : Sim → List ℕ
held w = w.0

fifo-laws : FifoLaws hal held
fifo-laws = record { ready_lem = λ w. refl; receive_lem = λ b bs w h. rw h (refl, refl) }

abbrev cfg : UartCfg
cfg = record {
  baud_rate = 115200;
  parity = no_parity;
  stop_bits = one;
  data_bits = bits_8;
  flow_ctrl = no_flow_ctrl;
  loopback_en = false;
  async_capable = true;
  tx_channel = 0;
  rx_channel = 1;
}

-- A device tree that asks for 9 data bits.
abbrev cfg_nine : UartCfg
cfg_nine = record cfg { data_bits = bits_9 }

nine-refused : ¬ IsSupported (requested cfg_nine)
nine-refused h = h.data_bits refl

dma-laws : DmaLaws hal cfg left
dma-laws = record {
  get_status_lem = λ w. refl;
  disable_irq_lem = λ w. refl;
  suspend_lem = λ w. refl;
}

app-laws : AppLaws app none
app-laws = record {
  ready_lem = λ cb arg buf len offset d. refl;
  released_lem = λ cb arg buf d. refl;
  disabled_lem = λ cb arg d. refl;
  request_lem = λ cb arg d. refl;
}

tx-laws : TxLaws hal app cfg
tx-laws = record {
  config_lem = λ b hw. refl;
  start_lem = λ w. refl;
  done_lem = λ cb arg buf len d. refl;
}

abbrev no_info : DmaInfo
no_info = record {
  dev = false;
  dst_addr = 0;
  buff_size = 0;
  next_dst_addr = 0;
  next_buff_size = 0;
  current_mode = 0;
  current_buf = 0;
  current_offset = 0;
  current_size = 0;
  current_total_size = 0;
}

abbrev no_diag : Diag
no_diag = record {
  irq_rx_data_avail = 0;
  irq_rx_timeout = 0;
  irq_other = 0;
  dma_rx_done = 0;
  dma_rx_error = 0;
  rx_flush_nonzero = 0;
  rx_flush_zero = 0;
}

-- A buffer of 10 bytes at 1000 of which 4 are reported, and the next one, of 20 bytes, at 2000.
abbrev receiving : ℕ → ℕ → Dev Sim
receiving n next = record {
  uart_config = requested cfg;
  user_cb = none;
  user_data = 0;
  idle_user_callback = some 7;
  idle_user_data = 0;
  dma_rxinfo = record no_info {
    dev = true;
    current_mode = 1;
    current_buf = 1000;
    current_offset = 4;
    current_total_size = 10;
    next_dst_addr = next;
    next_buff_size = 20;
  };
  dma_txinfo = no_info;
  idle_time_out_us = 0;
  diag = no_diag;
  diag_last = no_diag;
  self_dev = true;
  irq_locked = false;
  hw = ([], n);
  events = [];
  user_calls = 0;
  printed = [];
}

receiving-IsSynced : (n next : ℕ) → IsSynced 7 6 (receiving n next)
receiving-IsSynced n next = record { callback = refl; sync = refl; bound = omega arith }

-- Byte `i` of the memory is `i % 256`.
abbrev mem : ℕ → ℕ
mem i = i % 256

timeouts-Reports_example :
    Reports mem 7 6 1
      (receiving 6 0)
      (timeouts hal app cfg (([], 5) ∷ ([], 1) ∷ []) (receiving 6 0))
timeouts-Reports_example =
    timeouts-Reports hal app cfg left mem 7 6 (([], 5) ∷ ([], 1) ∷ []) (receiving 6 0) dma-laws
      (app-laws.ready_lem) (receiving-IsSynced 6 0) (omega arith, (omega arith, tt))

rx_done-started_example :
    (d' : Dev Sim) × (rx_done hal app cfg (receiving 0 2000) ≡ some d')
    × (d'.events ≡ rx_buf_request ∷ reported_released 1000 4 6 [])
    × (d'.dma_rxinfo.current_buf ≡ 2000)
    × IsSynced 7 20 d'
rx_done-started_example =
    rx_done-started hal app cfg left none 7 6 (receiving 0 2000) dma-laws app-laws
      (receiving-IsSynced 0 2000) refl refl (omega arith) (omega arith)

rx_done-disabled_example :
    (d' : Dev Sim) × (rx_done hal app cfg (receiving 0 0) ≡ some d')
    × (d'.events ≡ rx_disabled ∷ rx_buf_released 1000 ∷ reported_released 1000 4 6 [])
    × (d'.dma_rxinfo.current_buf ≡ 0)
rx_done-disabled_example =
    rx_done-disabled hal app cfg left none 7 6 (receiving 0 0) dma-laws app-laws
      (receiving-IsSynced 0 0) refl refl refl refl

tx-dma_callback_example :
    (d' : Dev Sim) × (d'' : Dev Sim) × (tx hal app cfg 3000 5 (receiving 0 0) ≡ some (success, d'))
    × (dma_callback hal app cfg 0 true d' ≡ some d'')
    × (d''.events ≡ tx_done 3000 5 ∷ [])
    × (d'.hw
        ≡ (hal.dma_start dma_tx_dev 0
            (hal.dma_config dma_tx_dev 0
              (record {
                channel_direction = memory_to_peripheral;
                source_address = 3000;
                dest_address = hal.thr_address;
                source_increments = true;
                dest_increments = false;
                block_size = 5;
                source_burst_length = 1;
              })
              (hal.reset_tx_fifo ([], 0))).1).1)
    × (d''.dma_txinfo.dst_addr ≡ 0)
    × (d''.dma_txinfo.buff_size ≡ 0)
tx-dma_callback_example =
    tx-dma_callback hal app cfg 3000 5 7 (receiving 0 0) tx-laws refl refl (omega arith)

fifo_read-held_example :
    (w : Sim) × (fifo_read hal 4 mem 2 (5 ∷ 6 ∷ 7 ∷ [], 0)
      ≡ some
          ((length {A = ℕ} (take 2 (5 ∷ 6 ∷ 7 ∷ [])), stored 0 (take 2 (5 ∷ 6 ∷ 7 ∷ [])) mem), w))
    × (held w ≡ drop 2 (5 ∷ 6 ∷ 7 ∷ []))
fifo_read-held_example = fifo_read-held hal held mem 2 (5 ∷ 6 ∷ 7 ∷ [], 0) fifo-laws (omega arith)

-- 257 bytes are read, and the result is 1.
abbrev many : Sim
many = (replicate 257 5, 0)
