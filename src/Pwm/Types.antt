-- ===== src/Pwm/Types.antt =====
-- The arguments of drivers/pwm/pwm_hpmicro.c, and the calls of the vendor's library that it makes.
-- The driver keeps no state of its own: its effect is the sequence of these calls.
use hpm_support.Prelude.{ℕ, Bool, List, [], ◌∷◌, ◌-◌, ◌+◌, ◌%◌, ◌^◌}

-- Zephyr's polarity flags, whose values its headers give, and the compare status of the second
-- generation: `pwmv2_get_cmp_working_status` of a channel after the calls made so far.
pub record Hal (Call : Type 0) : Type 0 where
  pub polarity_normal : ℕ
  pub polarity_inverted : ℕ
  pub cmp_working_status : ℕ → List Call → ℕ

-- `PWM_TRIG_ENABLE` of include/dt-bindings/pwm/hpmicro-pwm-common.h
abbrev pub trig_enable : ℕ
trig_enable = 0

-- The difference of two unsigned words of 32 bits.
abbrev pub sub_u32 : ℕ → ℕ → ℕ
sub_u32 a b = (a + 2 ^ 32 - b) % 2 ^ 32

-- A call of the `pwmv2_*` functions, with the arguments that the driver does not keep constant.
pub data Call : Type 0 where
  shadow_register_unlock shadow_register_lock : Call
  set_shadow_val : ℕ → ℕ → ℕ → Call
  counter_select_data_offset : ℕ → ℕ → Call
  counter_burst_disable set_reload_update_time : ℕ → Call
  select_cmp_source : ℕ → ℕ → Call
  cmp_update_trig_time : ℕ → Call
  output_invert four_cmp : Bool → ℕ → Call
  set_dead_area : ℕ → ℕ → Call
  channel_enable_output enable_counter start_pwm_output : ℕ → Call

-- The calls in order, onto those made before, the latest first.
abbrev pub perform {ℓ} : {A : Type ℓ} → List A → List A → List A
perform [] t = t
perform (c ∷ cs) t = perform cs (c ∷ t)
