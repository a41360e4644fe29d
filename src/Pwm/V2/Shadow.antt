-- ===== src/Pwm/V2/Shadow.antt =====
-- The shadow registers after calls of `hpmicro_pwm_v2_set_cycles`.
use hpm_support.Prelude.{
  ℕ, ◌%◌, ◌≡◌, ◌∙◌, Bool, Option, none, some, List, [], ◌∷◌, ltb, ◌==◌, if◌then◌else◌, Bool-cases,
  inl, inr,
}
use hpm_support.Pwm.Types.{
  Hal, sub_u32, Call, set_shadow_val, perform, shadow_register_unlock, shadow_register_lock,
  counter_select_data_offset, counter_burst_disable, set_reload_update_time, select_cmp_source,
  cmp_update_trig_time, output_invert, four_cmp, set_dead_area, channel_enable_output,
  enable_counter, start_pwm_output,
}
use hpm_support.Pwm.V2.{
  shadow_reload, shadow_cmp1, shadow_cmp2, waveform_calls, dead_zone_calls, four_cmp_call,
  run_calls,
}

-- The value that a call writes to shadow register `k`, over the one there.
abbrev pub write : ℕ → Call → Option ℕ → Option ℕ
write k (set_shadow_val i v x) old = if i == k then some v else old
write k shadow_register_unlock old = old
write k shadow_register_lock old = old
write k (counter_select_data_offset c s) old = old
write k (counter_burst_disable c) old = old
write k (set_reload_update_time c) old = old
write k (select_cmp_source c s) old = old
write k (cmp_update_trig_time c) old = old
write k (output_invert b c) old = old
write k (four_cmp b c) old = old
write k (set_dead_area c n) old = old
write k (channel_enable_output c) old = old
write k (enable_counter c) old = old
write k (start_pwm_output c) old = old

-- The value of shadow register `k` after the calls; `none` before the first write.
abbrev pub shadow : List Call → ℕ → Option ℕ
shadow [] k = none
shadow (c ∷ t) k = write k c (shadow t k)

shadow-dead_zone_calls :
    (c dead k : ℕ) (t : List Call) → shadow (perform (dead_zone_calls c dead) t) k ≡ shadow t k
shadow-dead_zone_calls c dead k t = elim (Bool-cases (ltb 0 dead)) [ inl e ↦ rw e | inr e ↦ rw e ]

write-four_cmp_call : (c n k : ℕ) (old : Option ℕ) → write k (four_cmp_call c n) old ≡ old
write-four_cmp_call c n k old = elim (Bool-cases (c % 2 == 1)) [
  | inl e ↦ elim (Bool-cases (n == 4294967040)) [ inl f ↦ rw (e, f) | inr f ↦ rw (e, f) ]
  | inr e ↦ rw e
]

module _ (hal : Hal Call) (dead : ℕ) where
  -- What a set-up of a channel writes: its two compare registers and the reload register of its
  -- counter.
  pub shadow-run_calls :
      (c p q : ℕ) (inv : Bool) (t : List Call) (k : ℕ)
      → shadow (run_calls hal dead c p q inv t) k ≡ (
          if shadow_cmp2 c == k
          then some (sub_u32 p q)
          else if shadow_cmp1 c == k
          then some 0
          else if shadow_reload c == k
          then some p
          else shadow t k)
  unfolding run_calls waveform_calls
  shadow-run_calls c p q inv t k = write-four_cmp_call c _ k _ ∙ shadow-dead_zone_calls c dead k _
