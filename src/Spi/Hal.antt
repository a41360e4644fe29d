-- ===== src/Spi/Hal.antt =====
-- What drivers/spi/spi_hpmicro.c calls and does not define: Zephyr's context of a transfer (`Os`), and
-- the vendor's library with the registers, the memory and the DMA controller (`Hal`).
use hpm_support.Prelude.{ℕ, Bool, Option}
use hpm_support.Errno.{Errno, Status}
use hpm_support.Spi.Types.{Control, Stream, Ints, SpiConfig, Format, Dev}

-- `BufSet` stands for `struct spi_buf_set`. The calls that wait take the whole device: they are what
-- other threads and the interrupt do until they return.
pub record Os (BufSet Ctx Hw : Type 0) : Type 0 where
  pub tx_len : Ctx → ℕ
  pub rx_len : Ctx → ℕ
  pub tx_buf : Ctx → ℕ
  pub rx_buf : Ctx → ℕ
  -- `spi_context_update_tx` and `spi_context_update_rx` with the size of a word and the count
  pub update_tx : ℕ → ℕ → Ctx → Ctx
  pub update_rx : ℕ → ℕ → Ctx → Ctx
  pub configured : SpiConfig → Ctx → Bool
  pub set_config : SpiConfig → Ctx → Ctx
  pub cs_control : Bool → Ctx → Ctx
  pub complete : Status → Ctx → Ctx
  pub lock : Bool → SpiConfig → Dev Ctx Hw → Dev Ctx Hw
  pub buffers_setup : BufSet → BufSet → ℕ → Ctx → Ctx
  pub wait_for_completion : Dev Ctx Hw → Status × Dev Ctx Hw
  pub release : Status → Ctx → Ctx
  pub unlock_unconditionally : Ctx → Ctx
  pub cs_configure_all : Ctx → Status × Ctx

pub record Hal (Hw : Type 0) : Type 0 where
  -- `SPI_SOC_TRANSFER_COUNT_MAX`
  pub transfer_count_max : ℕ
  pub default_control : Control
  -- the results say whether the call succeeded
  pub control_init : Control → ℕ → ℕ → Hw → Bool × Hw
  pub write_command : Control → Hw → Bool × Hw
  pub enable_interrupt : Ints → Hw → Hw
  pub disable_interrupt : Ints → Hw → Hw
  pub get_interrupt_status : Hw → Ints
  pub clear_interrupt_status : Ints → Hw → Hw
  pub get_data_length_in_bytes : Hw → ℕ
  -- the bytes of a word, the addresses and the count of words
  pub read_data : ℕ → ℕ → ℕ → Hw → Bool × Hw
  pub write_data : ℕ → ℕ → ℕ → Hw → Bool × Hw
  pub write_read_data : ℕ → ℕ → ℕ → ℕ → ℕ → Hw → Bool × Hw
  pub clock_frequency : Hw → ℕ
  -- the frequencies of the clock and of `SCLK`; `cs2sclk` and `csht` are constants of the instance
  pub timing_init : ℕ → ℕ → Hw → Hw
  pub format_init : Format → Hw → Hw
  -- the DMA controller, `device_is_ready` for the channels, and the addresses it is given
  pub dma_config : Stream → Hw → Status × Hw
  pub dma_start : ℕ → Hw → Status × Hw
  pub dma_tx_ready : Hw → Bool
  pub dma_rx_ready : Hw → Bool
  pub data_register : ℕ
  pub dummy_tx_buffer : ℕ
  pub dummy_rx_buffer : ℕ
  pub setup_dma_transfer : Control → ℕ → ℕ → Hw → Bool × Hw
  -- `STATUS` with its bit `SPIACTIVE`; reading it lets time pass
  pub is_active : Hw → Bool × Hw
  pub disable_dma : Hw → Hw
  pub irq_config : Hw → Hw
  pub apply_pinctrl : Hw → Option Errno × Hw
  pub set_up_clock : Hw → Hw
