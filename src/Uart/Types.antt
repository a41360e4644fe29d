-- ===== src/Uart/Types.antt =====
-- The data of drivers/serial/uart_hpmicro.c. Pointers to memory are addresses, and 0 is NULL.
use hpm_support.Prelude.{ℕ, Bool, Option, List}

-- `struct uart_config` of Zephyr
pub data Parity : Type 0 where
  no_parity odd even mark space : Parity

pub data DataBits : Type 0 where
  bits_5 bits_6 bits_7 bits_8 bits_9 : DataBits

pub data StopBits : Type 0 where
  half one one_and_half two : StopBits

pub data FlowCtrl : Type 0 where
  no_flow_ctrl rts_cts dtr_dsr rs485 : FlowCtrl

pub record UartConfig : Type 0 where
  pub baudrate : ℕ
  pub parity : Parity
  pub stop_bits : StopBits
  pub data_bits : DataBits
  pub flow_ctrl : FlowCtrl

-- `struct uart_hpm_cfg`, the part that is not handed to the library as it is
pub record UartCfg : Type 0 where
  pub baud_rate : ℕ
  pub parity : Parity
  pub stop_bits : StopBits
  pub data_bits : DataBits
  pub flow_ctrl : FlowCtrl
  pub loopback_en : Bool
  pub async_capable : Bool
  -- `dma_tx.channel` and `dma_rx.channel`, which the driver never changes
  pub tx_channel : ℕ
  pub rx_channel : ℕ

-- `dma_info_t`; `dev` says whether the pointer to the device is set.
pub record DmaInfo : Type 0 where
  pub dev : Bool
  pub dst_addr : ℕ
  pub buff_size : ℕ
  pub next_dst_addr : ℕ
  pub next_buff_size : ℕ
  pub current_mode : ℕ
  pub current_buf : ℕ
  pub current_offset : ℕ
  pub current_size : ℕ
  pub current_total_size : ℕ

-- What `struct stream` gets of a transfer: its direction, which address is incremented, the
-- addresses and the length.
pub data Direction : Type 0 where
  memory_to_peripheral peripheral_to_memory : Direction

pub record DmaBlock : Type 0 where
  pub channel_direction : Direction
  pub source_address : ℕ
  pub dest_address : ℕ
  pub source_increments : Bool
  pub dest_increments : Bool
  pub block_size : ℕ
  pub source_burst_length : ℕ

-- `struct uart_event`
pub data Event : Type 0 where
  tx_done tx_aborted : (buf len : ℕ) → Event
  rx_rdy : (buf len offset : ℕ) → Event
  rx_buf_request : Event
  rx_buf_released : (buf : ℕ) → Event
  rx_disabled : Event

-- The counters `diag_*`
pub record Diag : Type 0 where
  pub irq_rx_data_avail : ℕ
  pub irq_rx_timeout : ℕ
  pub irq_other : ℕ
  pub dma_rx_done : ℕ
  pub dma_rx_error : ℕ
  pub rx_flush_nonzero : ℕ
  pub rx_flush_zero : ℕ

-- The devices that the driver passes to the functions of a DMA controller: the controllers of its
-- two streams, and the serial port itself.
pub data Device : Type 0 where
  dma_rx_dev dma_tx_dev self : Device

-- The device: `struct uart_hpm_data`, whether interrupts are locked, the hardware, the events that
-- the application has been given, the latest first, how often the callback of the interrupt-driven
-- interface has run, and what the diagnosis has printed.
pub record Dev (Hw : Type 0) : Type 0 where
  pub uart_config : UartConfig
  pub user_cb : Option ℕ
  pub user_data : ℕ
  pub idle_user_callback : Option ℕ
  pub idle_user_data : ℕ
  pub dma_rxinfo : DmaInfo
  pub dma_txinfo : DmaInfo
  pub idle_time_out_us : ℕ
  pub diag : Diag
  pub diag_last : Diag
  pub self_dev : Bool
  pub irq_locked : Bool
  pub hw : Hw
  pub events : List Event
  pub user_calls : ℕ
  pub printed : List Diag
