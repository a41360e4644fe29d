-- ===== src/Spi/Types.antt =====
-- The data of drivers/spi/spi_hpmicro.c. A pointer is an address, and NULL is 0.
use hpm_support.Prelude.{ℕ, Bool}

pub data TransMode : Type 0 where
  write_read_together write_only read_only other_mode : TransMode

-- The fields of `spi_control_config_t` that the driver sets or reads
pub record Control : Type 0 where
  pub trans_mode : TransMode
  pub tx_dma_enable : Bool
  pub rx_dma_enable : Bool
  pub slave_data_only : Bool

-- `status_flags`, a word of the three `SPI_HPM_SPI_DMA_*_FLAG`
pub record Flags : Type 0 where
  pub error : Bool
  pub rx_done : Bool
  pub tx_done : Bool

pub data Direction : Type 0 where
  memory_to_peripheral peripheral_to_memory peripheral_to_peripheral : Direction

-- `struct stream`: the channel, and the parts of its configuration that the driver writes.
-- `source_inc` and `dest_inc` are true for `DMA_ADDR_ADJ_INCREMENT`.
pub record Stream : Type 0 where
  pub channel : ℕ
  pub channel_direction : Direction
  pub source_burst_length : ℕ
  pub source_address : ℕ
  pub source_inc : Bool
  pub dest_address : ℕ
  pub dest_inc : Bool
  pub block_size : ℕ

-- The interrupts of the unit, as a word of flags
pub record Ints : Type 0 where
  pub rx_threshold : Bool
  pub tx_threshold : Bool
  pub end_ : Bool

-- `struct spi_config` with the fields of its `operation`
pub record SpiConfig : Type 0 where
  pub frequency : ℕ
  pub word_size : ℕ
  pub master : Bool
  pub cpol : Bool
  pub cpha : Bool
  pub lsb : Bool

-- The format that `spi_format_init` gets
pub record Format : Type 0 where
  pub data_len_in_bits : ℕ
  pub cpol : Bool
  pub cpha : Bool
  pub lsb : Bool

-- `struct spi_hpm_data`, with the context of Zephyr and the unit
pub record Dev (Ctx Hw : Type 0) : Type 0 where
  pub control_config : Control
  pub ctx : Ctx
  pub transfer_len : ℕ
  pub tx_buf : ℕ
  pub rx_buf : ℕ
  pub status_flags : Flags
  pub dma_rx : Stream
  pub dma_tx : Stream
  pub hw : Hw
