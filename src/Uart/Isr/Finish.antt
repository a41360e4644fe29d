-- ===== src/Uart/Isr/Finish.antt =====
-- The end of a receive buffer in drivers/serial/uart_hpmicro.c.
use mathlib.Core.Option
use hpm_support.Prelude.{
  ℕ, zero, suc, ◌-◌, ◌<◌, ◌≡◌, ◌∙◌, refl, ap, true, false, Option, none, some, List, ◌∷◌, arith,
  lt→ltb, ◌==◌,
}
use hpm_support.Errno.{success, err, efault}
use hpm_support.Uart.Types.{
  UartCfg, Event, rx_rdy, rx_buf_request, rx_buf_released, rx_disabled, dma_rx_dev, Dev,
}
use hpm_support.Uart.Hal.{Hal, App, word, add32}
use hpm_support.Uart.Rx.{
  on_hw, switched, stop_rx, start_rx, rx_block, rx_disable, replace_rx_buffer, start_current,
  dma_rx_load,
}
use hpm_support.Uart.Isr.{release_reported, next_or_disable, rx_done, after_replace}
use hpm_support.Uart.Isr.Stream.{DmaLaws, IsSynced, flushed, async_rx_flush-IsSynced}
use hpm_support.Uart.Isr.Disable.{answered, AppLaws, rx_disable-IsSynced}

positive_ne : (a : ℕ) → 0 < a → (a == 0) ≡ false
positive_ne a h = ground arith

-- The events of a report of `len` bytes and the release of the buffer, if there are any.
abbrev pub reported_released : ℕ → ℕ → ℕ → List Event → List Event
reported_released buf offset zero es = es
reported_released buf offset (suc k) es = rx_buf_released buf ∷ rx_rdy buf (suc k) offset ∷ es

module _ {Hw : Type 0} (hal : Hal Hw) (app : App Hw) (cfg : UartCfg) where
  replace_rx_buffer-none :
      (d : Dev Hw)
      → d.dma_rxinfo.next_dst_addr ≡ 0
      → replace_rx_buffer hal app cfg d ≡ some (err efault, d)
  unfolding replace_rx_buffer
  replace_rx_buffer-none d h = simp h

  -- The state in which the next buffer has become the current one.
  abbrev started : Option (ℕ × ℕ) → Dev Hw → Dev Hw
  started answer d =
      let i = d.dma_rxinfo in
      let block = rx_block hal app cfg i.next_dst_addr i.next_buff_size in
      let s = answered answer (
        stop_rx hal app cfg (record d {
          dma_rxinfo = switched i;
          irq_locked = true;
          events = rx_buf_request ∷ d.events;
        })) in
      let r =
        start_rx hal app cfg
          (on_hw hal app cfg (λ hw. (hal.dma_config dma_rx_dev cfg.rx_channel block hw).1) s) in
      record r {
        dma_rxinfo = record (r.dma_rxinfo) { current_mode = 1 };
        irq_locked = d.irq_locked;
      }

  replace_rx_buffer-started :
      (answer : Option (ℕ × ℕ)) (cb : ℕ) (d : Dev Hw)
      → AppLaws app answer
      → d.idle_user_callback ≡ some cb
      → 0 < d.dma_rxinfo.next_dst_addr
      → replace_rx_buffer hal app cfg d ≡ some (success, started answer d)
  unfolding replace_rx_buffer start_current dma_rx_load
  replace_rx_buffer-started none cb d quiet c h =
      rw
        (
          positive_ne d.dma_rxinfo.next_dst_addr h,
          c,
          quiet.request_lem,
          positive_ne d.dma_rxinfo.next_dst_addr h,
        )
        refl
  replace_rx_buffer-started (some (buf, len)) cb d quiet c h =
      rw
        (
          positive_ne d.dma_rxinfo.next_dst_addr h,
          c,
          quiet.request_lem,
          positive_ne d.dma_rxinfo.next_dst_addr h,
        )
        refl

  -- The count of the diagnosis, a flush of `k` bytes and the release that follows it.
  abbrev counted : Dev Hw → Dev Hw
  counted d = record d { diag = record (d.diag) { dma_rx_done = add32 d.diag.dma_rx_done 1 } }

  abbrev released : ℕ → Dev Hw → Dev Hw
  released zero d = flushed zero d
  released (suc k) d =
      let f = flushed (suc k) d in
      record f { events = rx_buf_released d.dma_rxinfo.current_buf ∷ f.events }

  release-released :
      (answer : Option (ℕ × ℕ)) (cb k : ℕ) (d : Dev Hw)
      → AppLaws app answer
      → d.idle_user_callback ≡ some cb
      → release_reported hal app cfg (flushed k d) ≡ released k d
  unfolding release_reported
  release-released answer cb zero d laws c = refl
  release-released answer cb (suc k) d laws c =
      rw (lt→ltb 0 (suc k) (omega arith), c, laws.released_lem) refl

  rx_done-released :
      (left : Hw → ℕ) (answer : Option (ℕ × ℕ)) (cb n : ℕ) (d : Dev Hw)
      → DmaLaws hal cfg left
      → AppLaws app answer
      → IsSynced cb n d
      → left d.hw ≡ 0
      → d.dma_rxinfo.dev ≡ true
      → rx_done hal app cfg d ≡ next_or_disable hal app cfg (released n (counted d))
  unfolding rx_done
  rx_done-released left answer cb n d laws quiet s e v =
      let c = counted d in
      let t : IsSynced cb n c = record { callback = s.callback; sync = s.sync; bound = s.bound } in
      let f =
        async_rx_flush-IsSynced hal app cfg left n cb c laws quiet.ready_lem t (omega (arith, e)) in
      let z : n - left d.hw ≡ n = omega (arith, e) in
      simp v (
        ap (λ x. next_or_disable hal app cfg (release_reported hal app cfg x)) f
        ∙ rw z (
            ap (λ x. next_or_disable hal app cfg x)
              (release-released answer cb n c quiet s.callback)))

  released-fields :
      (n : ℕ) (d : Dev Hw)
      → ((released n d).idle_user_callback ≡ d.idle_user_callback)
        × ((released n d).dma_rxinfo.next_dst_addr ≡ d.dma_rxinfo.next_dst_addr)
        × ((released n d).dma_rxinfo.next_buff_size ≡ d.dma_rxinfo.next_buff_size)
        × ((released n d).dma_rxinfo.current_buf ≡ d.dma_rxinfo.current_buf)
        × ((released n d).events
            ≡ reported_released d.dma_rxinfo.current_buf d.dma_rxinfo.current_offset n d.events)
  released-fields zero d = (refl, refl, refl, refl, refl)
  released-fields (suc n) d = (refl, refl, refl, refl, refl)

  started-fields :
      (answer : Option (ℕ × ℕ)) (d : Dev Hw)
      → ((started answer d).idle_user_callback ≡ d.idle_user_callback)
        × ((started answer d).events ≡ rx_buf_request ∷ d.events)
        × ((started answer d).dma_rxinfo.current_buf ≡ d.dma_rxinfo.next_dst_addr)
        × ((started answer d).dma_rxinfo.current_total_size ≡ d.dma_rxinfo.next_buff_size)
        × ((started answer d).dma_rxinfo.current_offset ≡ 0)
  started-fields none d = (refl, refl, refl, refl, refl)
  started-fields (some (buf, len)) d = (refl, refl, refl, refl, refl)

  released-IsSynced :
      (cb n : ℕ) (d : Dev Hw)
      → IsSynced cb n d
      → d.dma_rxinfo.current_total_size < word
      → IsSynced cb 0 (released n d)
  released-IsSynced cb zero d s b = record { callback = s.callback; sync = s.sync; bound = s.bound }
  released-IsSynced cb (suc n) d s b = record {
    callback = s.callback;
    sync = omega (arith, s.sync);
    bound = s.bound;
  }

  released-hw : (n : ℕ) (d : Dev Hw) → (released n d).hw ≡ d.hw
  released-hw zero d = refl
  released-hw (suc n) d = refl

  -- The controller has filled the current buffer while the driver holds a next one. The application
  -- is told of the bytes that have not been reported and of the release of the buffer, and asked for
  -- another; the next buffer is the current one, with nothing reported of it. When all bytes had
  -- been reported before, no release is told.
  pub rx_done-started :
      (left : Hw → ℕ) (answer : Option (ℕ × ℕ)) (cb n : ℕ) (d : Dev Hw)
      → DmaLaws hal cfg left
      → AppLaws app answer
      → IsSynced cb n d
      → left d.hw ≡ 0
      → d.dma_rxinfo.dev ≡ true
      → 0 < d.dma_rxinfo.next_dst_addr
      → d.dma_rxinfo.next_buff_size < word
      → (d' : Dev Hw) × (rx_done hal app cfg d ≡ some d')
        × (d'.events
            ≡ rx_buf_request
              ∷ reported_released d.dma_rxinfo.current_buf d.dma_rxinfo.current_offset n d.events)
        × (d'.dma_rxinfo.current_buf ≡ d.dma_rxinfo.next_dst_addr)
        × IsSynced cb d.dma_rxinfo.next_buff_size d'
  unfolding next_or_disable
  rx_done-started left answer cb n d laws quiet s e v h b =
      let r = released n (counted d) in
      let (c, next, size, buf, evs) = released-fields n (counted d) in
      let (c', evs', buf', total, offset) = started-fields answer r in
      (
        started answer r,
        rx_done-released left answer cb n d laws quiet s e v
            ∙ ap (λ o. Option.map (after_replace hal app cfg) o)
                (replace_rx_buffer-started answer cb r quiet (c ∙ s.callback)
                  (omega (arith, h, next))),
        evs' ∙ ap (λ es. rx_buf_request ∷ es) evs,
        buf' ∙ next,
        record {
          callback = c' ∙ c ∙ s.callback;
          sync = omega (arith, offset, total, size);
          bound = omega (arith, total, size, b);
        },
      )

  -- The controller has filled the current buffer while the driver holds no next one, which ends the
  -- reception. When bytes had not been reported, the application is told of them and then twice of
  -- the release of the same buffer; otherwise once.
  pub rx_done-disabled :
      (left : Hw → ℕ) (answer : Option (ℕ × ℕ)) (cb n : ℕ) (d : Dev Hw)
      → DmaLaws hal cfg left
      → AppLaws app answer
      → IsSynced cb n d
      → left d.hw ≡ 0
      → d.dma_rxinfo.dev ≡ true
      → d.dma_rxinfo.next_dst_addr ≡ 0
      → cfg.async_capable ≡ true
      → (d' : Dev Hw) × (rx_done hal app cfg d ≡ some d')
        × (d'.events
            ≡ rx_disabled
              ∷ rx_buf_released d.dma_rxinfo.current_buf
              ∷ reported_released d.dma_rxinfo.current_buf d.dma_rxinfo.current_offset n d.events)
        × (d'.dma_rxinfo.current_buf ≡ 0)
  unfolding next_or_disable
  rx_done-disabled left answer cb n d laws quiet s e v h a =
      let r = released n (counted d) in
      let (c, next, size, buf, evs) = released-fields n (counted d) in
      let y =
        released-IsSynced cb n (counted d)
          (record { callback = s.callback; sync = s.sync; bound = s.bound }) s.bound in
      let o =
        rx_disable-IsSynced hal app cfg left answer cb 0 r laws quiet y
          (rw (released-hw n (counted d)) (omega (arith, e))) a in
      let z : 0 - left r.hw ≡ 0 = omega arith in
      (
        (rx_disable hal app cfg r).1,
        rx_done-released left answer cb n d laws quiet s e v
            ∙ ap (λ x. Option.map (after_replace hal app cfg) x)
                (replace_rx_buffer-none r (next ∙ h)),
        o.1 ∙ rw (z, buf, evs) refl,
        ap (λ i. i.current_buf) o.2,
      )
