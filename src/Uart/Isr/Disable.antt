-- ===== src/Uart/Isr/Disable.antt =====
-- The end of a reception in drivers/serial/uart_hpmicro.c.
use hpm_support.Prelude.{
  ℕ, zero, suc, ◌-◌, ◌≤◌, ◌≡◌, ◌∙◌, refl, true, Option, none, some, List, ◌∷◌,
}
use hpm_support.Errno.{success}
use hpm_support.Uart.Types.{
  UartCfg, Event, rx_rdy, rx_buf_request, rx_buf_released, rx_disabled, Dev,
}
use hpm_support.Uart.Hal.{Hal, App}
use hpm_support.Uart.Event.{async_user_callback, evt_rx_buf_release}
use hpm_support.Uart.Rx.{
  on_hw, put_rx, cleared, suspend_rx, stop_rx, disable_locked, rx_disable, rx_buf_rsp,
}
use hpm_support.Uart.Isr.Stream.{DmaLaws, KeepsOnReady, IsSynced, flushed, async_rx_flush-IsSynced}

-- What a call of `rx_buf_rsp` or none leaves.
abbrev pub answered : {Hw : Type 0} → Option (ℕ × ℕ) → Dev Hw → Dev Hw
answered none d = d
answered (some (buf, len)) d =
    put_rx (record (d.dma_rxinfo) { next_dst_addr = buf; next_buff_size = len }) d

-- An application that answers a request for a buffer by `answer` and calls the driver at no other
-- event.
pub record AppLaws {Hw : Type 0} (app : App Hw) (answer : Option (ℕ × ℕ)) : Type 0 where
  pub ready_lem : KeepsOnReady app
  pub released_lem : (cb arg buf : ℕ) (d : Dev Hw) → app.on_event cb arg (rx_buf_released buf) d ≡ d
  pub disabled_lem : (cb arg : ℕ) (d : Dev Hw) → app.on_event cb arg rx_disabled d ≡ d
  pub request_lem :
      (cb arg : ℕ) (d : Dev Hw) → app.on_event cb arg rx_buf_request d ≡ answered answer d

-- The events of a report of `len` bytes, if there are any.
abbrev pub reported : ℕ → ℕ → ℕ → List Event → List Event
reported buf offset zero es = es
reported buf offset (suc k) es = rx_rdy buf (suc k) offset ∷ es

module _ {Hw : Type 0} (hal : Hal Hw) (app : App Hw) (cfg : UartCfg) where
  rx_buf_rsp_lem :
      (buf len : ℕ) (d : Dev Hw)
      → cfg.async_capable ≡ true
      → d.dma_rxinfo.next_dst_addr ≡ 0
      → d.dma_rxinfo.next_buff_size ≡ 0
      → rx_buf_rsp hal app cfg buf len d ≡ some (success, answered (some (buf, len)) d)
  unfolding rx_buf_rsp
  rx_buf_rsp_lem buf len d a e f = rw (a, e, f) refl

  -- The state that a release and the reset of the reception leave.
  abbrev pub disabled : Dev Hw → Dev Hw
  disabled d = stop_rx hal app cfg (record d {
    dma_rxinfo = cleared d.dma_rxinfo;
    events = rx_disabled ∷ rx_buf_released d.dma_rxinfo.current_buf ∷ d.events;
  })

  disabled-flushed :
      (answer : Option (ℕ × ℕ)) (cb k : ℕ) (d : Dev Hw)
      → AppLaws app answer
      → d.idle_user_callback ≡ some cb
      → (let r = stop_rx hal app cfg (evt_rx_buf_release app (flushed k d)) in
          async_user_callback app rx_disabled (put_rx (cleared r.dma_rxinfo) r))
        ≡ disabled (flushed k d)
  disabled-flushed answer cb zero d laws c = rw (c, laws.released_lem, laws.disabled_lem) refl
  disabled-flushed answer cb (suc k) d laws c = rw (c, laws.released_lem, laws.disabled_lem) refl

  disable_locked-IsSynced :
      (left : Hw → ℕ) (answer : Option (ℕ × ℕ)) (cb n : ℕ) (d : Dev Hw)
      → DmaLaws hal cfg left
      → AppLaws app answer
      → IsSynced cb n d
      → left d.hw ≤ n
      → disable_locked hal app cfg d
        ≡ disabled (
            flushed
              (n - left d.hw)
              (suspend_rx hal app cfg (on_hw hal app cfg hal.disable_rx_irq d)))
  unfolding disable_locked
  disable_locked-IsSynced left answer cb n d laws quiet s l =
      let c = suspend_rx hal app cfg (on_hw hal app cfg hal.disable_rx_irq d) in
      let e : left c.hw ≡ left d.hw =
        laws.suspend_lem (hal.disable_rx_irq d.hw) ∙ laws.disable_irq_lem d.hw in
      let t : IsSynced cb n c = record { callback = s.callback; sync = s.sync; bound = s.bound } in
      let f = async_rx_flush-IsSynced hal app cfg left n cb c laws quiet.ready_lem t (rw e l) in
      rw (f, e) (disabled-flushed answer cb (n - left d.hw) c quiet s.callback)

  disabled-reported :
      (k : ℕ) (d : Dev Hw)
      → ((disabled (flushed k d)).events
          ≡ rx_disabled
            ∷ rx_buf_released d.dma_rxinfo.current_buf
            ∷ reported d.dma_rxinfo.current_buf d.dma_rxinfo.current_offset k d.events)
        × ((disabled (flushed k d)).dma_rxinfo ≡ cleared d.dma_rxinfo)
  disabled-reported zero d = (refl, refl)
  disabled-reported (suc k) d = (refl, refl)

  -- Reception is disabled while `left d.hw` bytes of the buffer are to be written: the application is
  -- told of the bytes that have not been reported, if there are any, then of the release of the
  -- buffer and of the end, and the reception is reset. A next buffer that the driver holds is
  -- dropped, and its release is not told.
  pub rx_disable-IsSynced :
      (left : Hw → ℕ) (answer : Option (ℕ × ℕ)) (cb n : ℕ) (d : Dev Hw)
      → DmaLaws hal cfg left
      → AppLaws app answer
      → IsSynced cb n d
      → left d.hw ≤ n
      → cfg.async_capable ≡ true
      → ((rx_disable hal app cfg d).0 ≡ success)
        × ((rx_disable hal app cfg d).1.events
            ≡ rx_disabled
              ∷ rx_buf_released d.dma_rxinfo.current_buf
              ∷ reported d.dma_rxinfo.current_buf d.dma_rxinfo.current_offset
                  (n - left d.hw)
                  d.events)
        × ((rx_disable hal app cfg d).1.dma_rxinfo ≡ cleared d.dma_rxinfo)
        × ((rx_disable hal app cfg d).1.irq_locked ≡ d.irq_locked)
  unfolding rx_disable
  rx_disable-IsSynced left answer cb n d laws quiet s l a =
      let c : Dev Hw = record d { irq_locked = true } in
      let t : IsSynced cb n c = record { callback = s.callback; sync = s.sync; bound = s.bound } in
      let r =
        disabled-reported (n - left d.hw)
          (suspend_rx hal app cfg (on_hw hal app cfg hal.disable_rx_irq c)) in
      rw (a, disable_locked-IsSynced left answer cb n c laws quiet t l) (refl, r.0, r.1, refl)
