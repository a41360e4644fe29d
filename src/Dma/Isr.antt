-- ===== src/Dma/Isr.antt =====
-- The interrupt handler of drivers/dma/dma_hpmicro.c with `hpm_dma_callback`.
pub mod Complete
pub mod Total
use mathlib.Core.Option
use hpm_support.Prelude.{
  ℕ, zero, suc, ◌+◌, Bool, true, false, ◌||◌, Option, none, some, ◌∷◌, if◌then◌else◌, length,
  get_elem?,
}
use hpm_support.Dma.Types.{Channel, ChStatus, Call, Dev, Hal, put_channel, on_channel}

module _ {Hw : Type 0} where
  -- The call through the function pointer.
  abbrev pub invoke : Option ℕ → Channel → ℕ → Bool → Dev Hw → Option (Dev Hw)
  invoke none c i done d = none
  invoke (some cb) c i done d = some (record d {
    calls =
        record { callback = cb; user_data = c.user_data; channel = i; success = done } ∷ d.calls;
  })

  -- `hpm_dma_callback` on the data of channel `i`
  unfoldable pub callback : ℕ → Bool → Channel → Dev Hw → Option (Dev Hw)
  callback i done c d = invoke c.dma_callback c i done (put_channel i (record c { busy = false }) d)

module _ {Hw : Type 0} (hal : Hal Hw) where
  -- The body of the loop of `dma_hpm_dma_irq_handler` at channel `i`.
  unfoldable pub handle_channel : ℕ → Channel → Dev Hw → Option (Dev Hw)
  unfolding callback
  handle_channel i c d =
      let (stat, hw') = hal.check_transfer_status i d.hw in
      let d' : Dev Hw = record d { hw = hw' } in
      if stat.tc
      then callback i true c d'
      else if stat.error || stat.abort
      then callback i false c d'
      else some d'

  -- The loop: `n` channels are left, `i` is the next.
  unfoldable pub handle_from : ℕ → ℕ → Dev Hw → Option (Dev Hw)
  unfolding handle_channel
  handle_from zero i d = some d
  handle_from (suc n) i d =
      Option.bind (get_elem? d.data_cb i)
        λ c. Option.bind (handle_channel i c d) λ d'. handle_from n (i + 1) d'

  -- `dma_hpm_dma_irq_handler`
  unfoldable pub irq_handler : Dev Hw → Option (Dev Hw)
  unfolding handle_from
  irq_handler d = handle_from (length d.data_cb) 0 d
