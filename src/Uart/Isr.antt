-- ===== src/Uart/Isr.antt =====
-- The interrupt handler, the callback of the DMA driver and the diagnosis.
pub mod Stream
pub mod Disable
pub mod Finish
use mathlib.Core.Option
use hpm_support.Prelude.{
  ℕ, ◌+◌, Bool, true, false, Option, none, some, ◌∷◌, ltb, ◌==◌, if◌then◌else◌,
}
use hpm_support.Errno.{Status, ok, err}
use hpm_support.Uart.Types.{UartCfg, Diag, Dev}
use hpm_support.Uart.Hal.{Hal, App, add32, sub32}
use hpm_support.Uart.Event.{evt_tx_done, evt_rx_buf_release}
use hpm_support.Uart.Rx.{async_rx_flush, suspend_rx, resume_rx, replace_rx_buffer, rx_disable}

module _ {Hw : Type 0} (hal : Hal Hw) (app : App Hw) (cfg : UartCfg) where
  -- The branch of `uart_hpm_isr` for a receive timeout
  unfoldable pub rx_timeout : Dev Hw → Dev Hw
  unfolding async_rx_flush
  rx_timeout d =
      let c : Dev Hw = record d {
        diag = record (d.diag) { irq_rx_timeout = add32 d.diag.irq_rx_timeout 1 };
      } in
      resume_rx hal app cfg (async_rx_flush hal app cfg (suspend_rx hal app cfg c))

  abbrev pub call_user : Option ℕ → Dev Hw → Dev Hw
  call_user none d = d
  call_user (some cb) d = record d { user_calls = d.user_calls + 1 }

  -- `uart_hpm_isr` for an identification of the interrupt
  unfoldable pub handle : ℕ → Dev Hw → Dev Hw
  unfolding rx_timeout
  handle irq_id d =
      if cfg.async_capable
      then if irq_id == hal.id_rx_data_avail
        then record d {
          diag = record (d.diag) { irq_rx_data_avail = add32 d.diag.irq_rx_data_avail 1 };
        }
        else if irq_id == hal.id_rx_timeout
        then rx_timeout d
        else record d { diag = record (d.diag) { irq_other = add32 d.diag.irq_other 1 } }
      else d

  -- `uart_hpm_isr`
  unfoldable pub isr : Dev Hw → Dev Hw
  unfolding handle
  isr d = let d' = handle (hal.irq_id d.hw) d in call_user d'.user_cb d'

  -- The end of the reception branch of `uart_hpm_dma_callback`
  abbrev pub after_replace : Status × Dev Hw → Dev Hw
  after_replace (ok u, d) = d
  after_replace (err e, d) = (rx_disable hal app cfg d).1

  -- The release of a buffer after the flush reported some bytes
  unfoldable pub release_reported : Dev Hw → Dev Hw
  release_reported d = if ltb 0 d.dma_rxinfo.current_size then evt_rx_buf_release app d else d

  unfoldable pub next_or_disable : Dev Hw → Option (Dev Hw)
  next_or_disable d = Option.map after_replace (replace_rx_buffer hal app cfg d)

  -- The branch of `uart_hpm_dma_callback` for the receive channel
  unfoldable pub rx_done : Dev Hw → Option (Dev Hw)
  rx_done d =
      let c : Dev Hw = record d {
        diag = record (d.diag) { dma_rx_done = add32 d.diag.dma_rx_done 1 };
      } in
      if d.dma_rxinfo.dev
      then next_or_disable (release_reported (async_rx_flush hal app cfg c))
      else none

  -- `uart_hpm_dma_callback`, `ok` for a status of 0; a NULL pointer to the device ends the run.
  unfoldable pub dma_callback : ℕ → Bool → Dev Hw → Option (Dev Hw)
  dma_callback channel false d = some (
      if channel == cfg.rx_channel
      then record d { diag = record (d.diag) { dma_rx_error = add32 d.diag.dma_rx_error 1 } }
      else d)
  dma_callback channel true d =
      if channel == cfg.tx_channel
      then if d.dma_txinfo.dev then some (evt_tx_done app d) else none
      else if channel == cfg.rx_channel
      then rx_done d
      else some d

abbrev pub diag_sub : Diag → Diag → Diag
diag_sub a b = record {
  irq_rx_data_avail = sub32 a.irq_rx_data_avail b.irq_rx_data_avail;
  irq_rx_timeout = sub32 a.irq_rx_timeout b.irq_rx_timeout;
  irq_other = sub32 a.irq_other b.irq_other;
  dma_rx_done = sub32 a.dma_rx_done b.dma_rx_done;
  dma_rx_error = sub32 a.dma_rx_error b.dma_rx_error;
  rx_flush_nonzero = sub32 a.rx_flush_nonzero b.rx_flush_nonzero;
  rx_flush_zero = sub32 a.rx_flush_zero b.rx_flush_zero;
}

-- `uart_hpm_diag_work_handler` without the scheduling of its next run
unfoldable pub diag_work_handler : {Hw : Type 0} → Dev Hw → Dev Hw
diag_work_handler d =
    if d.self_dev
    then record d { printed = diag_sub d.diag d.diag_last ∷ d.printed; diag_last = d.diag }
    else d
