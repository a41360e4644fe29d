-- ===== src/Adc/Sequence.antt =====
-- The channels and the sequence: hpmicro_adc12_channel_setup to adc_context_update_buffer_pointer, and
-- hpmicro_adc12_init. The loop over the channels is recursion on fuel; `none` says that it has not
-- ended.
use mathlib.Core.Option
use hpm_support.Prelude.{
  ℕ, zero, suc, ◌-◌, ◌==◌, Bool, not, Option, none, some, List, [], ◌∷◌, ◌++◌, if◌then◌else◌,
  clear_bit, length,
}
use hpm_support.Errno.{Errno, Status, success, err, einval, enotsup}
use hpm_support.Adc.Types.{ChannelCfg, Sequence, Dev}
use hpm_support.Adc.Hal.{Os, Hal, Res, res_6, res_8, res_10, res_12}

-- The setting of a resolution
abbrev pub res_of : ℕ → Option Res
res_of n =
    if n == 6
    then some res_6
    else if n == 8
    then some res_8
    else if n == 10
    then some res_10
    else if n == 12
    then some res_12
    else none

module _ {Ctx Hw : Type 0} (os : Os Ctx Hw) (hal : Hal Hw) where
  abbrev pub on_hw : (Hw → Hw) → Dev Ctx Hw → Dev Ctx Hw
  on_hw f d = record d { hw = f d.hw }

  -- `hpmicro_adc12_channel_setup`
  unfoldable pub channel_setup : ChannelCfg → Status
  channel_setup c =
      if hal.is_channel_invalid c.channel_id
      then err einval
      else if not c.default_acquisition
      then err enotsup
      else if c.differential
      then err enotsup
      else if not c.gain_1
      then err enotsup
      else if not c.internal_reference
      then err enotsup
      else success

  abbrev pub read_with : Option Res → Sequence → Dev Ctx Hw → Status × Dev Ctx Hw
  read_with none s d = (err enotsup, d)
  read_with (some r) s d =
      let c : Dev Ctx Hw = record d {
        hw = hal.set_resolution r d.hw;
        resolution = s.resolution;
        buffer = s.buffer;
      } in
      os.wait_for_completion (os.start_read s c)

  -- `hpmicro_adc12_start_read`
  unfoldable pub start_read : Sequence → Dev Ctx Hw → Status × Dev Ctx Hw
  start_read s d =
      if s.oversampling == 0 then read_with (res_of s.resolution) s d else (err enotsup, d)

  abbrev pub released : Status × Dev Ctx Hw → Status × Dev Ctx Hw
  released (st, d) = (st, record d { ctx = os.release st d.ctx })

  -- `hpmicro_adc12_read_async` and, with false, `hpmicro_adc12_read`
  unfoldable pub read : Bool → Sequence → Dev Ctx Hw → Status × Dev Ctx Hw
  read async s d = released (start_read s (os.lock async d))

  -- The loop that programs the channels, with the queue so far
  unfoldable pub program_channels : ℕ → ℕ → List ℕ → Hw → Option (List ℕ × Hw)
  program_channels zero channels queue hw = none
  program_channels (suc n) channels queue hw =
      let id = os.find_lsb_set channels - 1 in
      let rest =
        program_channels n (clear_bit channels id) (queue ++ (id ∷ [])) (hal.init_channel id hw) in
      if channels == 0 then some (queue, hw) else rest

  -- The sequence of the channels, its DMA and its trigger
  abbrev pub start_sequence : List ℕ → Hw → Hw
  start_sequence queue hw =
      let s = hal.set_seq_config queue hw in
      let t = if hal.trig_en then hal.trigger_mux_config s else s in
      let e = hal.enable_complete_interrupt (hal.init_seq_dma (length queue) t) in
      if hal.trig_en then e else hal.trigger_seq_by_sw e

  abbrev pub programmed : Dev Ctx Hw → List ℕ × Hw → Dev Ctx Hw
  programmed d (queue, hw) = record d { channel_num = length queue; hw = start_sequence queue hw }

  -- `hpmicro_adc12_start_channel`
  unfoldable pub start_channel : ℕ → Dev Ctx Hw → Option (Dev Ctx Hw)
  start_channel fuel d = Option.map (programmed d) (program_channels fuel d.channels [] d.hw)

  -- `adc_context_start_sampling`
  unfoldable pub start_sampling : ℕ → Dev Ctx Hw → Option (Dev Ctx Hw)
  start_sampling fuel d =
      start_channel fuel
        (record d { channels = os.sequence_channels d.ctx; repeat_buffer = d.buffer })

  -- `adc_context_update_buffer_pointer`
  unfoldable pub update_buffer_pointer : Bool → Dev Ctx Hw → Dev Ctx Hw
  update_buffer_pointer repeat_sampling d =
      if repeat_sampling then record d { buffer = d.repeat_buffer } else d

  abbrev pub after_pins : Option Errno × Hw → Dev Ctx Hw → Status × Dev Ctx Hw
  after_pins (some e, hw) d = (err e, record d { hw = hw })
  after_pins (none, hw) d = (
    success,
    record d { ctx = os.unlock_unconditionally d.ctx; hw = hal.irq_config (hal.adc_init hw) },
  )

  -- `hpmicro_adc12_init`
  unfoldable pub init : Dev Ctx Hw → Status × Dev Ctx Hw
  init d = after_pins (hal.apply_pinctrl (hal.set_up_clock d.hw)) d
