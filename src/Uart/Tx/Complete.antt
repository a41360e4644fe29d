-- ===== src/Uart/Tx/Complete.antt =====
-- The end of a transmission in drivers/serial/uart_hpmicro.c.
use hpm_support.Prelude.{ℕ, ◌≡◌, refl, true, false, some, ◌∷◌, ◌<◌, ◌==◌, arith}
use hpm_support.Errno.{success}
use hpm_support.Uart.Types.{UartCfg, DmaBlock, memory_to_peripheral, dma_tx_dev, tx_done, Dev}
use hpm_support.Uart.Hal.{Hal, App}
use hpm_support.Uart.Event.{evt_tx_done}
use hpm_support.Uart.Tx.{tx, dma_tx_load, tx_block}
use hpm_support.Uart.Isr.{dma_callback}

==_self : (a : ℕ) → (a == a) ≡ true
==_self a = ground arith

-- A DMA controller that takes the transfer and starts it, and an application whose callback for the
-- end of a transmission does not call the driver.
pub record TxLaws {Hw : Type 0} (hal : Hal Hw) (app : App Hw) (cfg : UartCfg) : Type 0 where
  pub config_lem :
      (b : DmaBlock) (hw : Hw) → (hal.dma_config dma_tx_dev cfg.tx_channel b hw).0 ≡ success
  pub start_lem : (hw : Hw) → (hal.dma_start dma_tx_dev cfg.tx_channel hw).0 ≡ success
  pub done_lem : (cb arg buf len : ℕ) (d : Dev Hw) → app.on_event cb arg (tx_done buf len) d ≡ d

module _ {Hw : Type 0} (hal : Hal Hw) (app : App Hw) (cfg : UartCfg) where
  -- On a controller that takes and starts every transfer, a buffer is sent as one transfer of its
  -- `len` bytes from the buffer to the register for sent bytes, the source incremented. When the
  -- controller reports its end, an application whose callback makes no call of the driver is told
  -- once, of that buffer and length, and the record of the transmission is reset.
  pub tx-dma_callback :
      (buf len cb : ℕ) (d : Dev Hw)
      → TxLaws hal app cfg
      → d.idle_user_callback ≡ some cb
      → cfg.async_capable ≡ true
      → 0 < buf
      → (d' : Dev Hw) × (d'' : Dev Hw) × (tx hal app cfg buf len d ≡ some (success, d'))
        × (dma_callback hal app cfg cfg.tx_channel true d' ≡ some d'')
        × (d''.events ≡ tx_done buf len ∷ d.events)
        × (d'.hw
            ≡ (hal.dma_start dma_tx_dev cfg.tx_channel
                (hal.dma_config dma_tx_dev cfg.tx_channel
                  (record {
                    channel_direction = memory_to_peripheral;
                    source_address = buf;
                    dest_address = hal.thr_address;
                    source_increments = true;
                    dest_increments = false;
                    block_size = len;
                    source_burst_length = 1;
                  })
                  (hal.reset_tx_fifo d.hw)).1).1)
        × (d''.dma_txinfo.dst_addr ≡ 0)
        × (d''.dma_txinfo.buff_size ≡ 0)
  unfolding tx dma_tx_load dma_callback evt_tx_done
  tx-dma_callback buf len cb d laws c a h =
      let e : (buf == 0) ≡ false = ground (arith, h) in
      let hw' =
        (hal.dma_config dma_tx_dev cfg.tx_channel (tx_block hal app cfg buf len)
          (hal.reset_tx_fifo d.hw)).1 in
      let d' : Dev Hw = record d {
        hw = (hal.dma_start dma_tx_dev cfg.tx_channel hw').1;
        dma_txinfo = record (d.dma_txinfo) { dev = true; dst_addr = buf; buff_size = len };
      } in
      let d'' : Dev Hw = record d' {
        dma_txinfo = record (d'.dma_txinfo) { dst_addr = 0; buff_size = 0 };
        events = tx_done buf len ∷ d.events;
      } in
      (
        d',
        d'',
        rw (a, e, laws.config_lem, laws.start_lem) refl,
        rw (==_self cfg.tx_channel, c, laws.done_lem) refl,
        refl,
        refl,
        refl,
        refl,
      )
