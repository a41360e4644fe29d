-- ===== src/Spi/Transceive/Setup.antt =====
-- The failures of transceive_dma, and the wait for its streams.
use mathlib.Core.Option
use hpm_support.Prelude.{ℕ, suc, ◌≡◌, ◌==◌, refl, arith, Bool, true, false, ◌&&◌, some}
use hpm_support.Errno.{success}
use hpm_support.Spi.Types.{Control, SpiConfig, Dev}
use hpm_support.Spi.Hal.{Os, Hal}
use hpm_support.Spi.Config.{on_ctx, keep, configure}
use hpm_support.Spi.Packet.{Packet, packet_at}
use hpm_support.Spi.Dma.{no_flags, dma_callback, wait_dma_rx_tx_done}
use hpm_support.Spi.Transceive.{
  start_streams, dma_round, dma_loop, transceive_dma, opened, control_after,
}

module _ {BufSet Ctx Hw : Type 0} (os : Os BufSet Ctx Hw) (hal : Hal Hw) (dma : Bool) where
  -- The control word and the packet of the first round, after `a`
  abbrev pub first_control : BufSet → BufSet → Dev Ctx Hw → Control
  first_control tx_bufs rx_bufs a =
      control_after os hal dma (record (hal.default_control) { slave_data_only = false })
        (opened os hal dma tx_bufs rx_bufs a)

  abbrev pub first_packet : BufSet → BufSet → Dev Ctx Hw → Packet
  first_packet tx_bufs rx_bufs a = packet_at os hal (Dev.ctx (opened os hal dma tx_bufs rx_bufs a))

  abbrev pub is_drained : Ctx → Bool
  is_drained c = (os.rx_len c == 0) && (os.tx_len c == 0)

  -- When the unit cannot be set up for the first packet of a transfer that has bytes, the call returns
  -- success, with the context released as it was when the streams had started: no byte is counted and
  -- the chip select is not taken back.
  pub transceive_dma-not_set_up :
      (f : ℕ) (async : Bool) (cfg : SpiConfig) (tx_bufs rx_bufs : BufSet) (d a e : Dev Ctx Hw)
      → configure os hal dma cfg (os.lock async cfg d) ≡ (success, a)
      → is_drained (Dev.ctx (opened os hal dma tx_bufs rx_bufs a)) ≡ false
      → start_streams os hal dma
          (first_packet tx_bufs rx_bufs a)
          (record (opened os hal dma tx_bufs rx_bufs a) { status_flags = no_flags })
        ≡ (success, e)
      → (hal.setup_dma_transfer
          (first_control tx_bufs rx_bufs a)
          (Packet.tx_size (first_packet tx_bufs rx_bufs a))
          (Packet.rx_size (first_packet tx_bufs rx_bufs a))
          e.hw).0
        ≡ false
      → (r : Dev Ctx Hw) × (transceive_dma os hal dma (suc f) async cfg tx_bufs rx_bufs d
          ≡ some (success, r))
        × (r.ctx ≡ os.release success e.ctx)
  unfolding transceive_dma dma_loop dma_round Option.bind
  transceive_dma-not_set_up f async cfg tx_bufs rx_bufs d a e h w s n =
      let p = first_packet tx_bufs rx_bufs a in
      let c = first_control tx_bufs rx_bufs a in
      let t = (keep (hal.setup_dma_transfer c p.tx_size p.rx_size e.hw) e).1 in
      (on_ctx (os.release success) t, rw (h, w, s, n) refl, refl)

  -- The wait for both streams ends with success when only the one that sends has ended: when the
  -- completion comes from its callback, the flag of the other is not set.
  pub wait_dma_rx_tx_done-tx :
      (f : ℕ) (d : Dev Ctx Hw)
      → d.status_flags ≡ no_flags
      → os.wait_for_completion d ≡ (success, dma_callback os hal false d.dma_tx.channel d)
      → (r : Dev Ctx Hw) × (wait_dma_rx_tx_done os hal (suc f) d ≡ some (success, r))
        × (r.status_flags.rx_done ≡ false)
  unfolding wait_dma_rx_tx_done dma_callback
  wait_dma_rx_tx_done-tx f d h w =
      let n = d.dma_tx.channel in
      let e : (n == n) ≡ true = ground arith in
      (dma_callback os hal false n d, rw (w, h, e) refl, rw (e, h) refl)
