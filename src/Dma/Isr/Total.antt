-- ===== src/Dma/Isr/Total.antt =====
-- The interrupt handler on channels that have a callback.
use mathlib.Core.Option
use hpm_support.Prelude.{
  ℕ, zero, suc, ◌+◌, ◌≡◌, ◌∙◌, refl, Bool, true, false, ◌||◌, some, ◌∷◌, arith, length, get_elem?,
  get_elem?-some, length-set, Bool-cases, inl, inr, get_elem?-lt,
}
use hpm_support.Dma.Types.{Channel, Dev, Hal, put_channel}
use hpm_support.Dma.Channel.Sound.{Every, put_channel-Every}
use hpm_support.Dma.Isr.{callback, handle_channel, handle_from, irq_handler}

-- The channel has a callback.
pub record HasCallback (c : Channel) : Type 0 where
  pub address : ℕ
  pub installed : c.dma_callback ≡ some address

module _ {Hw : Type 0} (hal : Hal Hw) where
  -- A device with `n` channels after the handling of one of them.
  record Kept (n : ℕ) (d' : Dev Hw) : Type 0 where
    count : length d'.data_cb ≡ n
    every : Every HasCallback d'

  callback-Kept :
      (i : ℕ) (done : Bool) (c : Channel) (d : Dev Hw)
      → get_elem? d.data_cb i ≡ some c
      → Every HasCallback d
      → (d' : Dev Hw) × (callback i done c d ≡ some d') × Kept (length d.data_cb) d'
  unfolding callback
  callback-Kept i done c d e all =
      let h = all i c e in
      let c' = record c { busy = false } in
      (
        record (put_channel i c' d) {
          calls =
              record { callback = h.address; user_data = c.user_data; channel = i; success = done }
              ∷ d.calls;
        },
        rw h.installed,
        record {
          count = length-set d.data_cb i c';
          every =
              put_channel-Every HasCallback i c' d (get_elem?-lt d.data_cb i e)
                (record { address = h.address; installed = h.installed }) all;
        },
      )

  handle_channel-Kept :
      (i : ℕ) (c : Channel) (d : Dev Hw)
      → get_elem? d.data_cb i ≡ some c
      → Every HasCallback d
      → (d' : Dev Hw) × (handle_channel hal i c d ≡ some d') × Kept (length d.data_cb) d'
  unfolding handle_channel
  handle_channel-Kept i c d e all =
      let (stat, hw') = hal.check_transfer_status i d.hw in
      let r : Dev Hw = record d { hw = hw' } in
      elim (Bool-cases stat.tc) [
        | inl t ↦ rw t (callback-Kept i true c r e all)
        | inr f ↦ elim (Bool-cases (stat.error || stat.abort)) [
          | inl t ↦ rw (f, t) (callback-Kept i false c r e all)
          | inr g ↦ rw (f, g) (r, refl, record { count = refl; every = all })
        ]
      ]

  handle_from-Kept :
      (n i : ℕ) (d : Dev Hw)
      → i + n ≡ length d.data_cb
      → Every HasCallback d
      → (d' : Dev Hw) × (handle_from hal n i d ≡ some d') × Kept (length d.data_cb) d'
  unfolding handle_from Option.bind
  handle_from-Kept zero i d l all = (d, refl, record { count = refl; every = all })
  handle_from-Kept (suc n) i d l all =
      let (c, e) = get_elem?-some d.data_cb i (omega arith) in
      let (d', run, k) = handle_channel-Kept i c d e all in
      let (d'', run', k') = handle_from-Kept n (i + 1) d' (omega (arith, l, k.count)) k.every in
      (d'', rw (e, run) run', record { count = k'.count ∙ k.count; every = k'.every })

  -- When every channel has a callback, the interrupt handler goes through all the channels without
  -- a call through a NULL pointer or an access outside the array, whatever status the controller
  -- reports, and every channel still has its callback.
  pub irq_handler-Kept :
      (d : Dev Hw)
      → Every HasCallback d
      → (d' : Dev Hw) × (irq_handler hal d ≡ some d')
        × (length d'.data_cb ≡ length d.data_cb)
        × Every HasCallback d'
  unfolding irq_handler
  irq_handler-Kept d all =
      let (d', run, k) = handle_from-Kept (length d.data_cb) 0 d (omega arith) all in
      (d', run, k.count, k.every)
