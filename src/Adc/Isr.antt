-- ===== src/Adc/Isr.antt =====
-- hpmicro_adc12_isr. Its loop is recursion on fuel; `none` says that it has not ended.
pub mod Results
use mathlib.Core.Option
use hpm_support.Prelude.{
  ℕ, zero, suc, ◌+◌, ◌-◌, ◌/◌, ◌%◌, ◌^◌, ◌==◌, Bool, true, false, Option, none, some, if◌then◌else◌,
  clear_bit,
}
use hpm_support.Adc.Types.{Dev}
use hpm_support.Adc.Hal.{Os, Hal}

-- `((result >> 4)&0xffff) >> (12 - data->resolution)` for a resolution up to 12
abbrev pub scaled : ℕ → ℕ → ℕ
scaled resolution result = result / 16 % 65536 / 2 ^ (12 - resolution)

abbrev pub store : ℕ → ℕ → (ℕ → ℕ) → ℕ → ℕ
store a v mem x = if x == a then v else mem x

module _ {Ctx Hw : Type 0} (os : Os Ctx Hw) (hal : Hal Hw) where
  -- `*data->buffer++ = …` for the result of a channel; an element has two bytes.
  abbrev pub store_result : ℕ × Hw → Dev Ctx Hw → Dev Ctx Hw
  store_result (r, hw) d = record d {
    mem = store d.buffer (scaled d.resolution r) d.mem;
    buffer = d.buffer + 2;
    hw = hw;
  }

  -- The loop over the channels
  unfoldable pub store_results : ℕ → ℕ → Dev Ctx Hw → Option (Dev Ctx Hw)
  store_results zero channels d = none
  store_results (suc n) channels d =
      let id = os.find_lsb_set channels - 1 in
      let rest =
        store_results n (clear_bit channels id) (store_result (hal.oneshot_result id d.hw) d) in
      if channels == 0 then some d else rest

  abbrev pub sampled : Dev Ctx Hw → Dev Ctx Hw
  sampled d =
      let s = os.on_sampling_done (record d { channels = 0 }) in
      record s { hw = hal.clear_status_flags s.hw }

  -- `hpmicro_adc12_isr`
  unfoldable pub isr : ℕ → Dev Ctx Hw → Option (Dev Ctx Hw)
  isr fuel d =
      let c : Dev Ctx Hw = record d { hw = hal.clear_status_flags d.hw } in
      if hal.is_complete d.hw then Option.map sampled (store_results fuel d.channels c) else some c
