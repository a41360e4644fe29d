-- ===== src/Dma/Types.antt =====
-- The data of drivers/dma/dma_hpmicro.c, and what it calls and does not define (`Hal`). An access
-- outside the array of channels, and a call through a NULL callback, are undefined in C: a model
-- function that meets one returns `none`.
use mathlib.Core.Option
use hpm_support.Prelude.{ℕ, Bool, Option, List, get_elem?, set}

-- `dma_channel_config_t`, the fields that the driver sets to other than a constant.
pub record ChConfig : Type 0 where
  pub src_addr : ℕ
  pub dst_addr : ℕ
  pub src_width : ℕ
  pub dst_width : ℕ
  pub src_burst_size : ℕ
  pub src_handshake : Bool
  pub dst_handshake : Bool
  pub src_addr_ctrl : ℕ
  pub dst_addr_ctrl : ℕ
  pub size_in_byte : ℕ

-- `enum dma_channel_direction`; `other` stands for the directions that the driver does not name.
pub data Direction : Type 0 where
  memory_to_memory memory_to_peripheral peripheral_to_memory peripheral_to_peripheral : Direction
  other : Direction

-- `struct dma_config` with its head block, as far as the driver reads them.
pub record DmaConfig : Type 0 where
  pub dma_slot : ℕ
  pub channel_direction : Direction
  pub source_data_size : ℕ
  pub dest_data_size : ℕ
  pub source_burst_length : ℕ
  pub source_address : ℕ
  pub dest_address : ℕ
  pub source_addr_adj : ℕ
  pub dest_addr_adj : ℕ
  pub block_size : ℕ
  pub dma_callback : Option ℕ
  pub user_data : Option ℕ

-- `struct call_back` with its `struct hpm_dma_channel_transfer_settings`.
pub record Channel : Type 0 where
  pub user_data : Option ℕ
  pub dma_callback : Option ℕ
  pub ch_config : ChConfig
  pub direction : Direction
  pub valid : Bool
  pub busy : Bool

-- The status of a channel, by the flags that the driver tests.
pub record ChStatus : Type 0 where
  pub tc : Bool
  pub error : Bool
  pub abort : Bool

-- A call of a channel's callback: its address and user data, the channel, and whether the status
-- that it is given is 0 (otherwise it is -1).
pub record Call : Type 0 where
  pub callback : ℕ
  pub user_data : Option ℕ
  pub channel : ℕ
  pub success : Bool

-- The device: the channels (`struct dma_hpm_data`), whether interrupts are locked, the controller
-- and the calls made so far, the latest first.
pub record Dev (Hw : Type 0) : Type 0 where
  pub data_cb : List Channel
  pub irq_locked : Bool
  pub hw : Hw
  pub calls : List Call

-- The vendor's library, and the device-tree constants of the controller.
pub record Hal (Hw : Type 0) : Type 0 where
  -- `DT_INST_PROP(0, dma_requests)`
  pub dma_requests : ℕ
  -- `DMA_TRANSFER_WIDTH_*` of 2 ^ k bytes and `DMA_NUM_TRANSFER_PER_BURST_*T` of 2 ^ k transfers
  pub width_code : ℕ → ℕ
  pub burst_code : ℕ → ℕ
  pub width_max : ℕ
  pub burst_max : ℕ
  -- the number that `EINVAL` stands for
  pub einval_code : ℕ
  pub local_to_sys : ℕ → ℕ
  pub dmamux_config : ℕ → ℕ → Hw → Hw
  pub abort_channel : ℕ → Hw → Hw
  pub clear_transfer_status : ℕ → Hw → Hw
  pub setup_channel : ℕ → ChConfig → Hw → Bool × Hw
  pub enable_channel : ℕ → Hw → Hw
  pub disable_channel : ℕ → Hw → Hw
  pub check_transfer_status : ℕ → Hw → ChStatus × Hw
  pub transfer_size : ℕ → Hw → ℕ

abbrev pub put_channel : {Hw : Type 0} → ℕ → Channel → Dev Hw → Dev Hw
put_channel i c d = record d { data_cb = set d.data_cb i c }

-- An operation on `DEV_CHANNEL_DATA(dev, i)`.
abbrev pub on_channel {ℓ} : {Hw : Type 0} {A : Type ℓ} → ℕ → Dev Hw → (Channel → A) → Option A
on_channel i d f = Option.map f (get_elem? d.data_cb i)
