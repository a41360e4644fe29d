-- ===== src/Pwm/V2.antt =====
-- `hpmicro_pwm_v2_set_cycles` of drivers/pwm/pwm_hpmicro.c.
pub mod Layout
pub mod Shadow
pub mod Spec
use hpm_support.Prelude.{
  ℕ, ◌+◌, ◌-◌, ◌*◌, ◌/◌, ◌%◌, Bool, true, false, Option, none, some, List, [], ◌∷◌, ltb, ◌==◌,
  if◌then◌else◌,
}
use hpm_support.Errno.{Status, success, err, enotsup}
use hpm_support.Pwm.Types.{
  Hal, sub_u32, Call, shadow_register_unlock, shadow_register_lock, set_shadow_val,
  counter_select_data_offset, counter_burst_disable, set_reload_update_time, select_cmp_source,
  cmp_update_trig_time, output_invert, four_cmp, set_dead_area, channel_enable_output,
  enable_counter, start_pwm_output, perform,
}

-- `channel >> 1`, the counter of a channel.
abbrev pub counter_of : ℕ → ℕ
counter_of channel = channel / 2

-- `cmp_index1`, the first compare unit of a channel.
abbrev pub cmp_index1 : ℕ → ℕ
cmp_index1 channel = (channel / 2 * 4 % 256 + channel % 2 * 2) % 256

abbrev pub cmp_index2 : ℕ → ℕ
cmp_index2 channel = (cmp_index1 channel + 1) % 256

-- `shadow_reload`, `shadow_cmp1` and `shadow_cmp2`, the shadow registers of a channel.
abbrev pub shadow_reload : ℕ → ℕ
shadow_reload channel = counter_of channel * 5 % 256

abbrev pub shadow_cmp1 : ℕ → ℕ
shadow_cmp1 channel = (shadow_reload channel + 1 + channel % 2 * 2) % 256

abbrev pub shadow_cmp2 : ℕ → ℕ
shadow_cmp2 channel = (shadow_cmp1 channel + 1) % 256

-- `invert_output`; `none` is the return with -ENOTSUP.
abbrev pub inverts : Hal Call → ℕ → Option Bool
inverts hal flags =
    if flags == hal.polarity_inverted
    then some true
    else if flags == hal.polarity_normal
    then some false
    else none

-- The calls up to the polarity.
unfoldable pub waveform_calls : ℕ → ℕ → ℕ → List Call
waveform_calls channel period pulse =
    shadow_register_unlock
    ∷ set_shadow_val (shadow_reload channel) period 0
    ∷ set_shadow_val (shadow_cmp1 channel) 0 0
    ∷ set_shadow_val (shadow_cmp2 channel) (sub_u32 period pulse) 0
    ∷ counter_select_data_offset (counter_of channel) (shadow_reload channel)
    ∷ counter_burst_disable (counter_of channel)
    ∷ set_reload_update_time (counter_of channel)
    ∷ select_cmp_source (cmp_index1 channel) (shadow_cmp1 channel)
    ∷ select_cmp_source (cmp_index2 channel) (shadow_cmp2 channel)
    ∷ cmp_update_trig_time (cmp_index1 channel)
    ∷ cmp_update_trig_time (cmp_index2 channel)
    ∷ []

-- `if (config->dead_zone_in_half_cycle > 0)`
abbrev pub dead_zone_calls : ℕ → ℕ → List Call
dead_zone_calls channel dead = if ltb 0 dead then set_dead_area channel dead ∷ [] else []

-- The four-compare mode of the pair, on what the even channel's compare status reads.
abbrev pub four_cmp_call : ℕ → ℕ → Call
four_cmp_call channel working =
    if channel % 2 == 1
    then if working == 4294967040 then four_cmp true (channel - 1) else four_cmp false (channel - 1)
    else four_cmp false channel

abbrev pub enable_calls : ℕ → List Call
enable_calls channel =
    channel_enable_output channel
    ∷ enable_counter (counter_of channel)
    ∷ start_pwm_output (counter_of channel)
    ∷ []

module _ (hal : Hal Call) (dead : ℕ) where
  -- The calls of a set-up that goes through.
  unfoldable pub run_calls : ℕ → ℕ → ℕ → Bool → List Call → List Call
  unfolding waveform_calls
  run_calls channel period pulse inv t =
      let w = perform (waveform_calls channel period pulse) t in
      let l =
        shadow_register_lock
        ∷ perform (dead_zone_calls channel dead) (output_invert inv channel ∷ w) in
      perform (enable_calls channel)
        (four_cmp_call channel (hal.cmp_working_status (channel - 1) l) ∷ l)

  -- `hpmicro_pwm_v2_set_cycles`
  unfoldable pub set_cycles : ℕ → ℕ → ℕ → ℕ → List Call → Status × List Call
  unfolding run_calls
  set_cycles channel period pulse flags t =
      if ltb 7 channel then (err enotsup, t) else elim (inverts hal flags) [
        | none ↦ (err enotsup, t)
        | some inv ↦
            if ltb 16777215 period
            then (err enotsup, t)
            else (success, run_calls channel period pulse inv t)
      ]
