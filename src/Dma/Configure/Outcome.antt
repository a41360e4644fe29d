-- ===== src/Dma/Configure/Outcome.antt =====
-- What `dma_hpm_dma_configure` does to the channels.
use hpm_support.Prelude.{
  ℕ, ◌≤◌, ◌<◌, ◌≡◌, ◌≢◌, ◌∙◌, refl, Bool, true, false, Option, none, some, arith, ltb, length,
  get_elem?, if◌then◌else◌, get_elem?-set_self, get_elem?-set_ne, get_elem?-lt, length-set,
}
use hpm_support.Errno.{err, Status, success, efault}
use hpm_support.Dma.Types.{ChConfig, DmaConfig, Channel, Dev, Hal, put_channel}
use hpm_support.Dma.Configure.Codes.{Programmed, make_config-Programmed}
use hpm_support.Dma.Configure.{
  handshakes, get_transfer_width, get_transfer_burst, as_u32, make_config, put_callback, prepare,
  apply, configure_channel, configure,
}

-- No unsigned word is below 0.
pub not_below_zero : (n : ℕ) → ltb n 0 ≡ false
not_below_zero n = ground arith

-- A channel with the callback `cb` and its argument, if one was given.
pub record Installed (cb arg : Option ℕ) (ch : Channel) : Type 0 where
  pub installed : (k : ℕ) → cb ≡ some k → (ch.dma_callback ≡ some k) × (ch.user_data ≡ arg)

-- The channel data after a configuration that was stored with `cfg`.
pub record Stored (c : DmaConfig) (cfg : ChConfig) (ch : Channel) : Type 0 where
  pub valid : ch.valid ≡ true
  pub idle : ch.busy ≡ false
  pub direction : ch.direction ≡ c.channel_direction
  pub config : ch.ch_config ≡ cfg

-- A configuration of channel `i` that went through: the interrupt lock is as before, the channel
-- is valid and idle with its configuration, and no other channel has changed.
pub record Configured {Hw : Type 0} (i : ℕ) (c : DmaConfig) (cfg : ChConfig) (d d' : Dev Hw)
    : Type 0 where
  pub lock : d'.irq_locked ≡ d.irq_locked
  pub stored :
      (ch : Channel) × (get_elem? d'.data_cb i ≡ some ch)
      × Stored c cfg ch
      × Installed c.dma_callback c.user_data ch
  pub others : (k : ℕ) → i ≢ k → get_elem? d'.data_cb k ≡ get_elem? d.data_cb k
  pub count : length d'.data_cb ≡ length d.data_cb
  pub calls : d'.calls ≡ d.calls

module _ {Hw : Type 0} (hal : Hal Hw) where
  -- The configuration that is stored for a transfer whose direction asks for `modes`.
  abbrev config_of : DmaConfig → Bool × Bool → ChConfig
  config_of c modes =
      make_config hal c modes (as_u32 hal (get_transfer_width hal c.source_data_size))
        (as_u32 hal (get_transfer_width hal c.dest_data_size))
        (as_u32 hal (get_transfer_burst hal c.source_burst_length))

  put_callback-Stored :
      (cb arg : Option ℕ) (c : DmaConfig) (cfg : ChConfig) (ch : Channel)
      → Stored c cfg ch
      → Stored c cfg (put_callback hal cb arg ch)
  put_callback-Stored none arg c cfg ch s = s
  put_callback-Stored (some cb) arg c cfg ch s = record {
    valid = s.valid;
    idle = s.idle;
    direction = s.direction;
    config = s.config;
  }

  put_callback-Installed :
      (cb arg : Option ℕ) (ch : Channel) → Installed cb arg (put_callback hal cb arg ch)
  put_callback-Installed none arg ch = record { installed = λ k e. cc }
  put_callback-Installed (some cb) arg ch = record { installed = λ k e. (e, refl) }

  apply-Configured :
      (i : ℕ) (c : DmaConfig) (modes : Bool × Bool) (ch : Channel) (d d0 : Dev Hw)
      → i < length d.data_cb
      → ch.direction ≡ c.channel_direction
      → (length d.data_cb ≡ length d0.data_cb)
      → ((k : ℕ) → i ≢ k → get_elem? d.data_cb k ≡ get_elem? d0.data_cb k)
      → d.calls ≡ d0.calls
      → let (st, d') = apply hal i c modes d0.irq_locked ch d in
        (st ≡ (if (hal.setup_channel i (config_of c modes) d.hw).0 then success else err efault))
        × Configured i c (config_of c modes) d0 d'
  unfolding apply
  apply-Configured i c modes ch d d0 h dir len rest told =
      let sw = as_u32 hal (get_transfer_width hal c.source_data_size) in
      let dw = as_u32 hal (get_transfer_width hal c.dest_data_size) in
      let burst = as_u32 hal (get_transfer_burst hal c.source_burst_length) in
      let ch' =
        put_callback hal c.dma_callback c.user_data
          (record ch { ch_config = config_of c modes; valid = true; busy = false }) in
      rw (not_below_zero sw, not_below_zero dw, not_below_zero burst)
        (
          refl,
          record {
            lock = refl;
            stored = (
              ch',
              get_elem?-set_self d.data_cb i ch' h,
              put_callback-Stored c.dma_callback c.user_data c (config_of c modes) _
                  (record { valid = refl; idle = refl; direction = dir; config = refl }),
              put_callback-Installed c.dma_callback c.user_data _,
            );
            others = λ k n. get_elem?-set_ne d.data_cb ch' n ∙ rest k n;
            count = length-set d.data_cb i ch' ∙ len;
            calls = told;
          },
        )

  configure_channel-Configured :
      (i : ℕ) (c : DmaConfig) (modes : Bool × Bool) (ch : Channel) (d : Dev Hw)
      → i < length d.data_cb
      → handshakes c.channel_direction ≡ some modes
      → let (st, d') = configure_channel hal i c ch d in
        (st ≡ (
          if (hal.setup_channel i (config_of c modes) (prepare hal i c.dma_slot ch.busy d.hw)).0
          then success
          else err efault))
        × Configured i c (config_of c modes) d d'
  unfolding configure_channel
  configure_channel-Configured i c modes ch d h dir =
      let ch' = record ch { valid = false; direction = c.channel_direction } in
      rw (dir, configure_channel)
        (apply-Configured i c modes ch'
          (put_channel i ch'
            (record d { irq_locked = true; hw = prepare hal i c.dma_slot ch.busy d.hw }))
          d (omega (arith, length-set d.data_cb i ch')) refl (length-set d.data_cb i ch')
          (λ k n. get_elem?-set_ne d.data_cb ch' n) refl)

  -- On a channel of the controller, with a request in range and one of the four directions that the
  -- driver names, the call makes a configuration `cfg` with the addresses, the adjustments and the
  -- size that were asked for, a handshake on the side of each peripheral, and the codes of the widths
  -- and of the burst length, or the error code in their place. `cfg` goes to the vendor's set-up, whose
  -- outcome is the status; it is stored in the channel, which is valid and idle with the callback
  -- that was given; the interrupt lock is as before, and the other channels are unchanged.
  pub configure-Configured :
      (i : ℕ) (c : DmaConfig) (modes : Bool × Bool) (ch : Channel) (d : Dev Hw)
      → get_elem? d.data_cb i ≡ some ch
      → c.dma_slot ≤ hal.dma_requests
      → handshakes c.channel_direction ≡ some modes
      → (cfg : ChConfig) × (r : Status × Dev Hw) × (configure hal i (some c) d ≡ some r)
        × Programmed hal c cfg
        × (r.0 ≡ (
            if (hal.setup_channel i cfg (prepare hal i c.dma_slot ch.busy d.hw)).0
            then success
            else err efault))
        × Configured i c cfg d r.1
  unfolding configure
  configure-Configured i c modes ch d e slot dir =
      let h = get_elem?-lt d.data_cb i e in
      let a : ltb hal.dma_requests c.dma_slot ≡ false = ground arith in
      let b : ltb (length d.data_cb) i ≡ false = ground arith in
      let out = configure_channel-Configured i c modes ch d h dir in
      (
        config_of c modes,
        configure_channel hal i c ch d,
        rw (a, b, e),
        make_config-Programmed hal c modes dir,
        out.0,
        out.1,
      )
