-- ===== src/Uart/Event.antt =====
-- The events of the asynchronous interface: `async_user_callback` and the functions `async_evt_*`.
use hpm_support.Prelude.{ℕ, Option, none, some, ◌∷◌, ltb, if◌then◌else◌}
use hpm_support.Uart.Types.{Event, tx_done, rx_rdy, rx_buf_request, rx_buf_released, Dev}
use hpm_support.Uart.Hal.{App, add32}

-- `uart_hpm_callback_set`
abbrev pub callback_set : {Hw : Type 0} → Option ℕ → ℕ → Dev Hw → Dev Hw
callback_set cb arg d = record d { idle_user_callback = cb; idle_user_data = arg }

module _ {Hw : Type 0} (app : App Hw) where
  abbrev pub tell : Option ℕ → Event → Dev Hw → Dev Hw
  tell none e d = d
  tell (some cb) e d = app.on_event cb d.idle_user_data e (record d { events = e ∷ d.events })

  -- `async_user_callback`
  abbrev pub async_user_callback : Event → Dev Hw → Dev Hw
  async_user_callback e d = tell d.idle_user_callback e d

  -- `async_evt_tx_done`
  unfoldable pub evt_tx_done : Dev Hw → Dev Hw
  evt_tx_done d =
      async_user_callback (tx_done d.dma_txinfo.dst_addr d.dma_txinfo.buff_size)
        (record d { dma_txinfo = record (d.dma_txinfo) { dst_addr = 0; buff_size = 0 } })

  -- `async_evt_rx_rdy`
  unfoldable pub evt_rx_rdy : Dev Hw → Dev Hw
  evt_rx_rdy d =
      let i = d.dma_rxinfo in
      let d' : Dev Hw = record d {
        dma_rxinfo = record i { current_offset = add32 i.current_offset i.current_size };
      } in
      if ltb 0 i.current_size
      then async_user_callback (rx_rdy i.current_buf i.current_size i.current_offset) d'
      else d'

  -- `async_evt_rx_buf_request`
  abbrev pub evt_rx_buf_request : Dev Hw → Dev Hw
  evt_rx_buf_request d = async_user_callback rx_buf_request d

  -- `async_evt_rx_buf_release`
  abbrev pub evt_rx_buf_release : Dev Hw → Dev Hw
  evt_rx_buf_release d = async_user_callback (rx_buf_released d.dma_rxinfo.current_buf) d
