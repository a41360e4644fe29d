-- ===== src/Uart/Tx.antt =====
-- Transmission through DMA. A NULL buffer fails an assertion and ends the run: the result is `none`.
pub mod Complete
use mathlib.Core.Option
use hpm_support.Prelude.{ℕ, Bool, true, false, Option, none, some, ◌==◌, if◌then◌else◌}
use hpm_support.Errno.{Status, success, ok, err, enotsup}
use hpm_support.Uart.Types.{
  UartCfg, DmaBlock, DmaInfo, memory_to_peripheral, dma_tx_dev, self, tx_aborted, Dev,
}
use hpm_support.Uart.Hal.{Hal, App, sub32}
use hpm_support.Uart.Event.{async_user_callback}

module _ {Hw : Type 0} (hal : Hal Hw) (app : App Hw) (cfg : UartCfg) where
  abbrev pub tx_block : ℕ → ℕ → DmaBlock
  tx_block buf len = record {
    channel_direction = memory_to_peripheral;
    source_address = buf;
    dest_address = hal.thr_address;
    source_increments = true;
    dest_increments = false;
    block_size = len;
    source_burst_length = 1;
  }

  -- `uart_hpm_dma_tx_load`
  unfoldable pub dma_tx_load : ℕ → ℕ → Dev Hw → Option (Status × Dev Hw)
  dma_tx_load buf len d =
      let (ret, hw) = hal.dma_config dma_tx_dev cfg.tx_channel (tx_block buf len) d.hw in
      if buf == 0 then none else some (ret, record d { hw = hw })

  -- `uart_hpm_tx` after the load
  abbrev pub start_tx : Status × Dev Hw → Status × Dev Hw
  start_tx (err e, d) = (err e, d)
  start_tx (ok u, d) =
      let (stat, hw) = hal.dma_start dma_tx_dev cfg.tx_channel d.hw in (stat, record d { hw = hw })

  -- `uart_hpm_tx`
  unfoldable pub tx : ℕ → ℕ → Dev Hw → Option (Status × Dev Hw)
  unfolding dma_tx_load
  tx buf len d =
      let d' : Dev Hw = record d {
        hw = hal.reset_tx_fifo d.hw;
        dma_txinfo = record (d.dma_txinfo) { dev = true; dst_addr = buf; buff_size = len };
      } in
      if cfg.async_capable
      then Option.map start_tx (dma_tx_load buf len d')
      else some (err enotsup, d)

  -- `uart_hpm_async_tx_flush`, which passes the serial port where a DMA controller is expected
  unfoldable pub sent_len : Status → ℕ → ℕ → ℕ
  sent_len (ok u) size pending = sub32 size pending
  sent_len (err e) size pending = 0

  unfoldable pub async_tx_flush : Dev Hw → ℕ × Dev Hw
  unfolding sent_len
  async_tx_flush d =
      let ((ret, pending), hw) = hal.dma_get_status self cfg.tx_channel d.hw in
      (sent_len ret d.dma_txinfo.buff_size pending, record d { hw = hw })

  -- `uart_hpm_tx_abort` after `dma_stop` and after `dma_suspend`
  abbrev pub stopped : Status → ℕ → ℕ → Dev Hw → Status × Dev Hw
  stopped (err e) buf len d = (err e, d)
  stopped (ok u) buf len d = (success, async_user_callback app (tx_aborted buf len) d)

  unfoldable pub suspended : Status → Dev Hw → Status × Dev Hw
  unfolding async_tx_flush
  suspended (err e) d = (err e, d)
  suspended (ok u) d =
      let (len, f) = async_tx_flush d in
      let (stat, hw) = hal.dma_stop self cfg.tx_channel f.hw in
      stopped stat f.dma_txinfo.dst_addr len (record f { hw = hw })

  -- `uart_hpm_tx_abort`, which passes the serial port where a DMA controller is expected
  unfoldable pub tx_abort : Dev Hw → Status × Dev Hw
  unfolding suspended
  tx_abort d =
      let (stat, hw) = hal.dma_suspend self cfg.tx_channel d.hw in
      if cfg.async_capable then suspended stat (record d { hw = hw }) else (err enotsup, d)
