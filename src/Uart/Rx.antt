-- ===== src/Uart/Rx.antt =====
-- Reception through DMA. A failed assertion, of a NULL buffer or of a second answer to a buffer
-- request, ends the run: the result is `none`.
use mathlib.Core.Option
use hpm_support.Prelude.{
  ℕ, zero, suc, Bool, true, false, ◌&&◌, ◌||◌, Option, none, some, ltb, ◌==◌, if◌then◌else◌,
}
use hpm_support.Errno.{Status, success, err, enotsup, efault}
use hpm_support.Uart.Types.{
  UartCfg, DmaBlock, DmaInfo, peripheral_to_memory, dma_rx_dev, rx_disabled, Dev,
}
use hpm_support.Uart.Hal.{Hal, App, add32, sub32}
use hpm_support.Uart.Event.{async_user_callback, evt_rx_rdy, evt_rx_buf_request, evt_rx_buf_release}

abbrev pub put_rx : {Hw : Type 0} → DmaInfo → Dev Hw → Dev Hw
put_rx i d = record d { dma_rxinfo = i }

-- What `uart_hpm_rx_disable` resets.
abbrev pub cleared : DmaInfo → DmaInfo
cleared i = record i {
  next_dst_addr = 0;
  next_buff_size = 0;
  current_mode = 0;
  current_offset = 0;
  current_buf = 0;
  current_total_size = 0;
  current_size = 0;
}

-- What `uart_hpm_dma_replace_rx_buffer` sets: the next buffer becomes the current one.
abbrev pub switched : DmaInfo → DmaInfo
switched i = record i {
  current_buf = i.next_dst_addr;
  current_total_size = i.next_buff_size;
  current_size = 0;
  next_dst_addr = 0;
  next_buff_size = 0;
  current_mode = 0;
  current_offset = 0;
}

-- What `uart_hpm_rx_enable` sets.
abbrev pub enabled : ℕ → ℕ → DmaInfo → DmaInfo
enabled buf len i = record i {
  dev = true;
  dst_addr = buf;
  buff_size = len;
  next_dst_addr = 0;
  next_buff_size = 0;
  current_mode = 0;
  current_buf = buf;
  current_offset = 0;
  current_size = 0;
  current_total_size = len;
}

module _ {Hw : Type 0} (hal : Hal Hw) (app : App Hw) (cfg : UartCfg) where
  abbrev pub rx_block : ℕ → ℕ → DmaBlock
  rx_block buf len = record {
    channel_direction = peripheral_to_memory;
    source_address = hal.rbr_address;
    dest_address = buf;
    source_increments = false;
    dest_increments = true;
    block_size = len;
    source_burst_length = 1;
  }

  -- `uart_hpm_dma_rx_load`
  unfoldable pub dma_rx_load : ℕ → ℕ → Dev Hw → Option (Status × Dev Hw)
  dma_rx_load buf len d =
      let (ret, hw) = hal.dma_config dma_rx_dev cfg.rx_channel (rx_block buf len) d.hw in
      if buf == 0 then none else some (ret, record d { hw = hw })

  -- `uart_hpm_async_rx_flush` once the controller has said how many bytes are pending
  unfoldable pub flush_pending : ℕ → Dev Hw → Dev Hw
  unfolding evt_rx_rdy
  flush_pending pending d =
      let i = d.dma_rxinfo in
      let rx_rcv_len = sub32 (sub32 i.current_total_size i.current_offset) pending in
      if ltb 0 rx_rcv_len
      then evt_rx_rdy app (record d {
        dma_rxinfo = record i { current_size = rx_rcv_len };
        diag = record (d.diag) { rx_flush_nonzero = add32 d.diag.rx_flush_nonzero 1 };
      })
      else record d {
        dma_rxinfo = record i { current_size = 0 };
        diag = record (d.diag) { rx_flush_zero = add32 d.diag.rx_flush_zero 1 };
      }

  -- `uart_hpm_async_rx_flush`
  unfoldable pub async_rx_flush : Dev Hw → Dev Hw
  unfolding flush_pending
  async_rx_flush d =
      let ((ret, pending), hw) = hal.dma_get_status dma_rx_dev cfg.rx_channel d.hw in
      flush_pending pending (record d { hw = hw })

  abbrev pub on_hw : (Hw → Hw) → Dev Hw → Dev Hw
  on_hw f d = record d { hw = f d.hw }

  abbrev pub suspend_rx : Dev Hw → Dev Hw
  suspend_rx d = on_hw (λ hw. (hal.dma_suspend dma_rx_dev cfg.rx_channel hw).1) d

  abbrev pub resume_rx : Dev Hw → Dev Hw
  resume_rx d = on_hw (λ hw. (hal.dma_resume dma_rx_dev cfg.rx_channel hw).1) d

  abbrev pub stop_rx : Dev Hw → Dev Hw
  stop_rx d = on_hw (λ hw. (hal.dma_stop dma_rx_dev cfg.rx_channel hw).1) d

  abbrev pub start_rx : Dev Hw → Dev Hw
  start_rx d = on_hw (λ hw. (hal.dma_start dma_rx_dev cfg.rx_channel hw).1) d

  -- `uart_hpm_rx_disable`, with interrupts locked
  unfoldable pub disable_locked : Dev Hw → Dev Hw
  unfolding async_rx_flush
  disable_locked d =
      let s = suspend_rx (on_hw hal.disable_rx_irq d) in
      let r = stop_rx (evt_rx_buf_release app (async_rx_flush s)) in
      async_user_callback app rx_disabled (put_rx (cleared r.dma_rxinfo) r)

  -- `irq_lock` before `f` and `irq_unlock` after it.
  abbrev pub with_lock : (Dev Hw → Dev Hw) → Dev Hw → Dev Hw
  with_lock f d = record (f (record d { irq_locked = true })) { irq_locked = d.irq_locked }

  -- `uart_hpm_rx_disable`
  unfoldable pub rx_disable : Dev Hw → Status × Dev Hw
  unfolding disable_locked
  rx_disable d =
      if cfg.async_capable then (success, with_lock disable_locked d) else (err enotsup, d)

  -- The end of `uart_hpm_dma_replace_rx_buffer` and of `uart_hpm_rx_enable`: the load of the current
  -- buffer and the start of the channel.
  unfoldable pub start_current : Dev Hw → Option (Dev Hw)
  unfolding dma_rx_load
  start_current d =
      Option.map
        (λ r. let s = start_rx r.1 in put_rx (record (s.dma_rxinfo) { current_mode = 1 }) s)
        (dma_rx_load d.dma_rxinfo.current_buf d.dma_rxinfo.current_total_size d)

  abbrev unlocked : Bool → Dev Hw → Dev Hw
  unlocked key d = record d { irq_locked = key }

  -- `uart_hpm_dma_replace_rx_buffer`
  unfoldable pub replace_rx_buffer : Dev Hw → Option (Status × Dev Hw)
  unfolding start_current
  replace_rx_buffer d =
      let s = stop_rx (record d { irq_locked = true }) in
      let next = evt_rx_buf_request app (put_rx (switched s.dma_rxinfo) s) in
      if d.dma_rxinfo.next_dst_addr == 0
      then some (err efault, d)
      else Option.map (λ r. (success, unlocked d.irq_locked r)) (start_current next)

  -- The loop of `uart_hpm_rx_enable` that empties the receiver: at most `n` rounds are left, and
  -- `none` says that it has not ended.
  unfoldable pub drain : ℕ → Hw → Option Hw
  drain zero hw = none
  drain (suc n) hw =
      let rest = drain n (hal.read_rbr hw) in
      if hal.overrun hw || hal.data_ready hw then rest else some hw

  -- `uart_hpm_rx_enable` from the empty receiver on
  abbrev pub enable_drained : Bool → Dev Hw → Option (Status × Dev Hw)
  enable_drained key d =
      let r = on_hw hal.enable_rx_irq (evt_rx_buf_request app d) in
      Option.map (λ s. (success, unlocked key s)) (start_current r)

  -- `uart_hpm_rx_enable`; `timeout_us` as an unsigned number
  unfoldable pub rx_enable : ℕ → ℕ → ℕ → ℕ → Dev Hw → Option (Status × Dev Hw)
  unfolding start_current drain
  rx_enable fuel buf len timeout_us d =
      let s = on_hw hal.reset_rx_fifo (record d {
        dma_rxinfo = enabled buf len d.dma_rxinfo;
        idle_time_out_us = timeout_us;
        irq_locked = true;
      }) in
      if cfg.async_capable
      then Option.bind (drain fuel s.hw) (λ hw. enable_drained d.irq_locked (record s { hw = hw }))
      else some (err enotsup, d)

  -- `mcux_lpuart_rx_buf_rsp`
  unfoldable pub rx_buf_rsp : ℕ → ℕ → Dev Hw → Option (Status × Dev Hw)
  rx_buf_rsp buf len d =
      let i = d.dma_rxinfo in
      if cfg.async_capable
      then if (i.next_dst_addr == 0) && (i.next_buff_size == 0)
        then some (success, put_rx (record i { next_dst_addr = buf; next_buff_size = len }) d)
        else none
      else some (err enotsup, d)
