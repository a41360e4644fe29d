-- ===== src/Spi/Config.antt =====
-- spi_hpm_configure, spi_hpm_release and spi_hpm_init. `dma` is `CONFIG_SPI_HPM_SPI_DMA`.
use hpm_support.Prelude.{Bool, not, ◌&&◌, Option, none, some, if◌then◌else◌, ltb}
use hpm_support.Errno.{Errno, Status, success, ok, err, einval, enotsup, enodev}
use hpm_support.Spi.Types.{SpiConfig, Format, Dev}
use hpm_support.Spi.Hal.{Os, Hal}

module _ {Ctx Hw : Type 0} where
  abbrev pub on_hw : (Hw → Hw) → Dev Ctx Hw → Dev Ctx Hw
  on_hw f d = record d { hw = f d.hw }

  abbrev pub on_ctx : (Ctx → Ctx) → Dev Ctx Hw → Dev Ctx Hw
  on_ctx f d = record d { ctx = f d.ctx }

  -- A call that has a result, on the unit
  abbrev pub keep {ℓ} : {A : Type ℓ} → A × Hw → Dev Ctx Hw → A × Dev Ctx Hw
  keep (a, hw) d = (a, record d { hw = hw })

  -- The rest of a function after a call that has to succeed
  abbrev pub bind : Status × Dev Ctx Hw → (Dev Ctx Hw → Status × Dev Ctx Hw) → Status × Dev Ctx Hw
  bind (ok u, d) f = f d
  bind (err e, d) f = (err e, d)

abbrev pub format_of : SpiConfig → Format
format_of c = record { data_len_in_bits = c.word_size; cpol = c.cpol; cpha = c.cpha; lsb = c.lsb }

module _ {BufSet Ctx Hw : Type 0} (os : Os BufSet Ctx Hw) (hal : Hal Hw) (dma : Bool) where
  -- The settings of `spi_hpm_configure`
  abbrev pub apply_config : SpiConfig → Dev Ctx Hw → Dev Ctx Hw
  apply_config cfg d = on_ctx (os.set_config cfg) (
      on_hw
        (λ hw.
          hal.format_init (format_of cfg)
            (hal.timing_init (hal.clock_frequency hw) cfg.frequency hw))
        d)

  -- `spi_hpm_configure`
  unfoldable pub configure : SpiConfig → Dev Ctx Hw → Status × Dev Ctx Hw
  configure cfg d =
      if os.configured cfg d.ctx
      then (success, d)
      else if ltb 32 cfg.word_size
      then (err einval, d)
      else if not cfg.master
      then (err enotsup, d)
      else (success, apply_config cfg d)

  -- `spi_hpm_release`
  unfoldable pub release : Dev Ctx Hw → Status × Dev Ctx Hw
  release d = (success, on_ctx os.unlock_unconditionally d)

  -- `spi_hpm_init`, from its end to its start
  abbrev pub after_pins : Option Errno × Hw → Dev Ctx Hw → Status × Dev Ctx Hw
  after_pins (none, hw) d =
      (success, on_ctx os.unlock_unconditionally (record d { hw = hal.set_up_clock hw }))
  after_pins (some e, hw) d = (err e, record d { hw = hw })

  abbrev pub after_chip_select : Status × Ctx → Dev Ctx Hw → Status × Dev Ctx Hw
  after_chip_select (ok u, c) d =
      let r = on_ctx os.unlock_unconditionally (record d { ctx = c }) in
      if dma && not (hal.dma_tx_ready d.hw && hal.dma_rx_ready d.hw)
      then (err enodev, r)
      else after_pins (hal.apply_pinctrl d.hw) r
  after_chip_select (err e, c) d = (err e, record d { ctx = c })

  unfoldable pub init : Dev Ctx Hw → Status × Dev Ctx Hw
  init d = let r = on_hw hal.irq_config d in after_chip_select (os.cs_configure_all r.ctx) r
