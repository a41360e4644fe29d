-- ===== src/Spi/Transceive.antt =====
-- transceive_dma, transceive and spi_hpm_transceive. The loops of transceive_dma are recursion on fuel;
-- `none` says that one has not ended.
pub mod Drains
pub mod Setup
use mathlib.Core.Option
use hpm_support.Prelude.{
  ℕ, zero, suc, ◌==◌, min, Bool, true, false, ◌&&◌, Option, none, some, if◌then◌else◌,
}
use hpm_support.Errno.{Status, success, Result, ok, err}
use hpm_support.Spi.Types.{
  TransMode, write_read_together, write_only, read_only, Control, SpiConfig, Dev,
}
use hpm_support.Spi.Hal.{Os, Hal}
use hpm_support.Spi.Config.{on_hw, on_ctx, keep, bind, configure}
use hpm_support.Spi.Packet.{Packet, packet_at, advance, transfer_next_packet}
use hpm_support.Spi.Dma.{no_flags, dma_tx_load, dma_rx_load, wait_dma_rx_tx_done}

-- The control word with the mode of a packet; an enable of DMA that was set before stays set.
abbrev pub control_for : TransMode → Control → Control
control_for read_only c = record c { trans_mode = read_only; rx_dma_enable = true }
control_for write_only c = record c { trans_mode = write_only; tx_dma_enable = true }
control_for m c = record c { trans_mode = m; tx_dma_enable = true; rx_dma_enable = true }

module _ {BufSet Ctx Hw : Type 0} (os : Os BufSet Ctx Hw) (hal : Hal Hw) (dma : Bool) where
  abbrev pub start_tx : Dev Ctx Hw → Status × Dev Ctx Hw
  start_tx d = keep (hal.dma_start d.dma_tx.channel d.hw) d

  abbrev pub start_rx : Dev Ctx Hw → Status × Dev Ctx Hw
  start_rx d = keep (hal.dma_start d.dma_rx.channel d.hw) d

  abbrev pub load_tx : ℕ → Dev Ctx Hw → Status × Dev Ctx Hw
  load_tx n d = dma_tx_load os hal (os.tx_buf d.ctx) n d

  abbrev pub load_rx : ℕ → Dev Ctx Hw → Status × Dev Ctx Hw
  load_rx n d = dma_rx_load os hal (os.rx_buf d.ctx) n d

  -- The streams of a packet, loaded and started
  unfoldable pub start_streams : Packet → Dev Ctx Hw → Status × Dev Ctx Hw
  start_streams p d = elim p.mode [
    | read_only ↦ bind (load_rx p.rx_size d) start_rx
    | write_only ↦ bind (load_tx p.tx_size d) start_tx
    | _ ↦
        bind (load_rx p.rx_size d)
          (λ r. bind (load_tx p.tx_size r) (λ t. bind (start_tx t) start_rx))
  ]

  -- `do { status = base->STATUS; } while(status & SPI_STATUS_SPIACTIVE_MASK);`
  unfoldable pub wait_idle : ℕ → Dev Ctx Hw → Option (Dev Ctx Hw)
  wait_idle zero d = none
  wait_idle (suc n) d =
      let (active, r) = keep (hal.is_active d.hw) d in
      let rest = wait_idle n r in if active then rest else some r

  -- What is done when a packet has gone through
  abbrev pub packet_done : Packet → Dev Ctx Hw → Dev Ctx Hw
  packet_done p d = on_ctx (advance os hal p.tx_size p.rx_size) (on_hw hal.disable_dma d)

  abbrev pub after_wait : ℕ → Packet → Status × Dev Ctx Hw → Option (Bool × Status × Dev Ctx Hw)
  after_wait fuel p (ok u, d) =
      Option.map (λ r. (true, success, packet_done p r)) (wait_idle fuel d)
  after_wait fuel p (err e, d) = some (false, err e, d)

  -- A unit that cannot be set up ends the loop with the result of the call before, which was 0.
  abbrev pub after_setup : ℕ → Packet → Bool × Dev Ctx Hw → Option (Bool × Status × Dev Ctx Hw)
  after_setup fuel p (true, d) = Option.bind (wait_dma_rx_tx_done os hal fuel d) (after_wait fuel p)
  after_setup fuel p (false, d) = some (false, success, d)

  abbrev pub after_start :
      ℕ → Packet → Control → Status × Dev Ctx Hw → Option (Bool × Status × Dev Ctx Hw)
  after_start fuel p c (ok u, d) =
      after_setup fuel p (keep (hal.setup_dma_transfer c p.tx_size p.rx_size d.hw) d)
  after_start fuel p c (err e, d) = some (false, err e, d)

  -- One round of the loop: whether it goes on, the value of `ret` and the device
  unfoldable pub dma_round : ℕ → Control → Dev Ctx Hw → Option (Bool × Status × Dev Ctx Hw)
  dma_round fuel c d =
      let p = packet_at os hal d.ctx in
      after_start fuel p c (start_streams p (record d { status_flags = no_flags }))

  abbrev pub control_after : Control → Dev Ctx Hw → Control
  control_after c d = control_for (Packet.mode (packet_at os hal d.ctx)) c

  -- The loop over the packets, of which at most `n` are left
  unfoldable pub dma_loop : ℕ → ℕ → Control → Dev Ctx Hw → Option (Status × Dev Ctx Hw)
  dma_loop fuel zero c d = none
  dma_loop fuel (suc n) c d =
      let k = control_after c d in
      let rest : Dev Ctx Hw → Option (Status × Dev Ctx Hw) = λ r. dma_loop fuel n k r in
      if (os.rx_len d.ctx == 0) && (os.tx_len d.ctx == 0)
      then some (success, on_ctx (os.cs_control false) d)
      else Option.bind (dma_round fuel k d) (λ (more, st, r). if more then rest r else some (st, r))

  abbrev pub released : Status × Dev Ctx Hw → Status × Dev Ctx Hw
  released (st, d) = (st, on_ctx (os.release st) d)

  -- The buffers of a transfer and its chip select
  abbrev pub opened : BufSet → BufSet → Dev Ctx Hw → Dev Ctx Hw
  opened tx_bufs rx_bufs d =
      on_ctx (λ c. os.cs_control true (os.buffers_setup tx_bufs rx_bufs 1 c)) d

  abbrev pub dma_configured :
      ℕ → BufSet → BufSet → Status × Dev Ctx Hw → Option (Status × Dev Ctx Hw)
  dma_configured fuel tx_bufs rx_bufs (ok u, d) =
      dma_loop fuel fuel (record (hal.default_control) { slave_data_only = false })
        (opened tx_bufs rx_bufs d)
  dma_configured fuel tx_bufs rx_bufs (err e, d) = some (err e, d)

  -- `transceive_dma`
  unfoldable pub transceive_dma :
      ℕ → Bool → SpiConfig → BufSet → BufSet → Dev Ctx Hw → Option (Status × Dev Ctx Hw)
  transceive_dma fuel async cfg tx_bufs rx_bufs d =
      Option.map released
        (dma_configured fuel tx_bufs rx_bufs (configure os hal dma cfg (os.lock async cfg d)))

  abbrev pub int_configured : BufSet → BufSet → Status × Dev Ctx Hw → Status × Dev Ctx Hw
  int_configured tx_bufs rx_bufs (ok u, d) =
      os.wait_for_completion (transfer_next_packet os hal (opened tx_bufs rx_bufs d))
  int_configured tx_bufs rx_bufs (err e, d) = (err e, d)

  -- `transceive`
  unfoldable pub transceive : Bool → SpiConfig → BufSet → BufSet → Dev Ctx Hw → Status × Dev Ctx Hw
  transceive async cfg tx_bufs rx_bufs d =
      released (int_configured tx_bufs rx_bufs (configure os hal dma cfg (os.lock async cfg d)))

  -- `spi_hpm_transceive` and, with `async`, `spi_hpm_transceive_async`
  unfoldable pub spi_transceive :
      ℕ → Bool → SpiConfig → BufSet → BufSet → Dev Ctx Hw → Option (Status × Dev Ctx Hw)
  spi_transceive fuel async cfg tx_bufs rx_bufs d =
      if dma
      then transceive_dma fuel async cfg tx_bufs rx_bufs d
      else some (transceive async cfg tx_bufs rx_bufs d)
