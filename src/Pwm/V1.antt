-- ===== src/Pwm/V1.antt =====
-- `hpmicro_pwm_v1_set_cycles` of drivers/pwm/pwm_hpmicro.c.
pub mod Scale
pub mod Outcome
use mathlib.Core.Option
use hpm_support.Prelude.{
  ℕ, zero, suc, ◌+◌, ◌-◌, ◌*◌, ◌/◌, ◌%◌, ◌^◌, Bool, true, false, Option, none, some, List, [], ◌∷◌,
  ltb, leb, ◌==◌, if◌then◌else◌, word_or,
}
use hpm_support.Errno.{Status, success, err, enotsup}
use hpm_support.Pwm.Types.{trig_enable, sub_u32, perform}

-- A call of the `pwm_*` functions, with the arguments that the driver does not keep constant. The
-- two compare configurations of `config_cmp` are told apart by their trigger: `on_event` is
-- `pwm_shadow_register_update_on_hw_event`.
pub data Call : Type 0 where
  config_cmp : ℕ → ℕ → ℕ → Bool → Call
  load_cmp_shadow_on_capture : ℕ → Call
  start_counter issue_shadow_register_lock_event shadow_register_unlock set_start_count : Call
  set_reload : ℕ → ℕ → Call
  setup_waveform : ℕ → Bool → ℕ → ℕ → ℕ → Call
  update_cmp_value : ℕ → ℕ → ℕ → Call

-- Zephyr's polarity flags, the number of compare units, and what the unit answers after the calls
-- made so far: the fields of its reload register, and whether `pwm_setup_waveform` succeeds.
pub record Hal : Type 0 where
  pub polarity_normal : ℕ
  pub polarity_inverted : ℕ
  pub cmp_max_count : ℕ
  pub reload_register : List Call → ℕ × ℕ
  pub setup_done : List Call → Bool

-- The loops over `i` and `j`: the first scale, from `i` on and with `n` to go, at which the value
-- fits into 24 bits, with the scaled value.
unfoldable pub search : ℕ → ℕ → ℕ → Option (ℕ × ℕ)
search zero i v = none
search (suc n) i v =
    let rest = search n (i + 1) v in
    if leb (v / (i + 1)) 16777215 then some (v / (i + 1), i) else rest

-- The variables that the loops set.
pub record Reload : Type 0 where
  pub rld : ℕ
  pub xrld : ℕ
  pub prld : ℕ
  pub rld_cmp : ℕ
  pub xrld_cmp : ℕ

-- `(xrld << 24) | rld`
abbrev pub reload_word : ℕ → ℕ → ℕ
reload_word xrld rld = word_or 32 (xrld * 2 ^ 24 % 2 ^ 32) rld

-- What the loops set when they find the scaled values `a` of the period and `b` of the difference.
abbrev pub long_reload : ℕ × ℕ → ℕ × ℕ → Reload
long_reload a b = record {
  rld = a.0;
  xrld = a.1;
  prld = reload_word a.1 a.0;
  rld_cmp = b.0;
  xrld_cmp = b.1;
}

-- From `if (period_cycles > 0xffffff)` on; `none` is the return with -ENOTSUP.
unfoldable pub reload_of : ℕ → ℕ → Option Reload
unfolding search
reload_of period pulse =
    let long =
      Option.bind (search 16 1 period)
        λ a. Option.map (long_reload a) (search 17 0 (sub_u32 period pulse)) in
    if ltb 16777215 period
    then long
    else some (record {
      rld = period;
      xrld = 0;
      prld = period;
      rld_cmp = sub_u32 period pulse;
      xrld_cmp = 0;
    })

module _ (hal : Hal) (dead : ℕ) where
  -- The branch of `PWM_TRIG_ENABLE`.
  abbrev pub trigger_calls : ℕ → ℕ → List Call
  trigger_calls channel period =
      config_cmp channel ((period + 1) % 2 ^ 32) 0 true
      ∷ load_cmp_shadow_on_capture (hal.cmp_max_count - 1)
      ∷ config_cmp (hal.cmp_max_count - 1) period 0 false
      ∷ start_counter
      ∷ issue_shadow_register_lock_event
      ∷ []

  -- A new reload value, up to the waveform.
  abbrev pub reload_calls : ℕ → Bool → Reload → List Call
  reload_calls channel inv r =
      set_reload r.xrld r.rld
      ∷ set_start_count
      ∷ setup_waveform channel inv dead ((r.rld + 1) % 2 ^ 32) r.xrld
      ∷ []

  abbrev pub restart_calls : Reload → List Call
  restart_calls r =
      load_cmp_shadow_on_capture (hal.cmp_max_count - 1)
      ∷ config_cmp (hal.cmp_max_count - 1) r.rld r.xrld false
      ∷ start_counter
      ∷ issue_shadow_register_lock_event
      ∷ []

  abbrev pub update_calls : ℕ → Reload → List Call
  update_calls channel r =
      shadow_register_unlock
      ∷ update_cmp_value channel r.rld_cmp r.xrld_cmp
      ∷ issue_shadow_register_lock_event
      ∷ []

  -- From the test of the reload register on.
  unfoldable pub apply_reload : ℕ → Bool → Reload → List Call → Status × List Call
  apply_reload channel inv r t =
      let w = perform (reload_calls channel inv r) t in
      let (xrld, rld) = hal.reload_register t in
      if r.prld == reload_word xrld rld
      then (success, perform (update_calls channel r) t)
      else if hal.setup_done w
      then (success, perform (update_calls channel r) (perform (restart_calls r) w))
      else (err enotsup, w)

  -- The part behind the polarity.
  unfoldable pub set_waveform : ℕ → Bool → ℕ → ℕ → List Call → Status × List Call
  unfolding reload_of apply_reload
  set_waveform channel inv period pulse t = elim (reload_of period pulse) [
    | none ↦ (err enotsup, t)
    | some r ↦ apply_reload channel inv r t
  ]

  -- `hpmicro_pwm_v1_set_cycles`
  unfoldable pub set_cycles : ℕ → ℕ → ℕ → ℕ → List Call → Status × List Call
  unfolding set_waveform
  set_cycles channel period pulse flags t =
      if flags == hal.polarity_inverted
      then set_waveform channel true period pulse t
      else if flags == hal.polarity_normal
      then set_waveform channel false period pulse t
      else if flags == trig_enable
      then (success, perform (trigger_calls channel period) t)
      else (err enotsup, t)
