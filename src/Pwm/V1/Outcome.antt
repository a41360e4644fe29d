-- ===== src/Pwm/V1/Outcome.antt =====
-- The compare values that `hpmicro_pwm_v1_set_cycles` leaves behind.
use hpm_support.Prelude.{
  ℕ, ◌≡◌, ◌⊎◌, refl, Bool, true, false, Option, none, some, List, [], ◌∷◌, ◌==◌, if◌then◌else◌,
  arith, Bool-cases, Option-cases, inl, inr,
}
use hpm_support.Errno.{Status, success, err, enotsup}
use hpm_support.Pwm.V1.{
  Call, config_cmp, load_cmp_shadow_on_capture, start_counter, issue_shadow_register_lock_event,
  shadow_register_unlock, set_start_count, set_reload, setup_waveform, update_cmp_value, Hal,
  Reload, reload_of, reload_word, reload_calls, apply_reload, set_waveform, set_cycles,
}
use hpm_support.Pwm.Types.{perform}

-- The compare value and its extension that were last given to channel `k`.
abbrev pub compare_value : List Call → ℕ → Option (ℕ × ℕ)
compare_value [] k = none
compare_value (update_cmp_value c v x ∷ t) k = if c == k then some (v, x) else compare_value t k
compare_value (config_cmp c v x b ∷ t) k = compare_value t k
compare_value (load_cmp_shadow_on_capture n ∷ t) k = compare_value t k
compare_value (start_counter ∷ t) k = compare_value t k
compare_value (issue_shadow_register_lock_event ∷ t) k = compare_value t k
compare_value (shadow_register_unlock ∷ t) k = compare_value t k
compare_value (set_start_count ∷ t) k = compare_value t k
compare_value (set_reload x v ∷ t) k = compare_value t k
compare_value (setup_waveform c b d v x ∷ t) k = compare_value t k

-- A call that set the channel to the values of `r`.
pub record Updated (channel : ℕ) (r : Reload) (t : List Call) (out : Status × List Call)
    : Type 0 where
  pub status : out.0 ≡ success
  pub values :
      (k : ℕ)
      → compare_value out.1 k
        ≡ (if channel == k then some (r.rld_cmp, r.xrld_cmp) else compare_value t k)

-- A call that was refused.
pub record Refused (t : List Call) (out : Status × List Call) : Type 0 where
  pub status : out.0 ≡ err enotsup
  pub values : (k : ℕ) → compare_value out.1 k ≡ compare_value t k

-- The vendor's set-up of a waveform fails after some calls.
abbrev pub Failed : Hal → Type 0
Failed hal = (w : List Call) × (hal.setup_done w ≡ false)

module _ (hal : Hal) (dead : ℕ) where
  apply_reload-outcome :
      (channel : ℕ) (inv : Bool) (r : Reload) (t : List Call)
      → Updated channel r t (apply_reload hal dead channel inv r t)
        ⊎ (Failed hal × Refused t (apply_reload hal dead channel inv r t))
  unfolding apply_reload
  apply_reload-outcome channel inv r t =
      let w = perform (reload_calls hal dead channel inv r) t in
      let (xrld, rld) = hal.reload_register t in
      elim (Bool-cases (r.prld == reload_word xrld rld)) [
        | inl e ↦ rw e (inl (record { status = refl; values = λ k. refl }))
        | inr e ↦ elim (Bool-cases (hal.setup_done w)) [
          | inl f ↦ rw (e, f) (inl (record { status = refl; values = λ k. refl }))
          | inr f ↦ rw (e, f) (inr ((w, f), record { status = refl; values = λ k. refl }))
        ]
      ]

  set_waveform-outcome :
      (channel : ℕ) (inv : Bool) (period pulse : ℕ) (t : List Call)
      → ((r : Reload) × (reload_of period pulse ≡ some r)
          × Updated channel r t (set_waveform hal dead channel inv period pulse t))
        ⊎ (((reload_of period pulse ≡ none) ⊎ Failed hal)
            × Refused t (set_waveform hal dead channel inv period pulse t))
  unfolding set_waveform
  set_waveform-outcome channel inv period pulse t = elim (Option-cases (reload_of period pulse)) [
    | inl e ↦ inr (inl e, rw (e, set_waveform) (record { status = refl; values = λ k. refl }))
    | inr (r, e) ↦ elim (apply_reload-outcome channel inv r t) [
      | inl u ↦ inl (r, e, rw (e, set_waveform) u)
      | inr (c, u) ↦ inr (inr c, rw (e, set_waveform) u)
    ]
  ]

  -- With a polarity, the call either returns 0, and then the channel has the compare value of the
  -- period and the pulse and no other channel has a new one, or it returns -ENOTSUP, because the
  -- values do not fit or the vendor's set-up fails, and then no channel has a new one.
  pub set_cycles-outcome :
      (channel period pulse flags : ℕ) (t : List Call)
      → (flags ≡ hal.polarity_inverted) ⊎ (flags ≡ hal.polarity_normal)
      → ((r : Reload) × (reload_of period pulse ≡ some r)
          × Updated channel r t (set_cycles hal dead channel period pulse flags t))
        ⊎ (((reload_of period pulse ≡ none) ⊎ Failed hal)
            × Refused t (set_cycles hal dead channel period pulse flags t))
  unfolding set_cycles
  set_cycles-outcome channel period pulse flags t known =
      elim (Bool-cases (flags == hal.polarity_inverted)) [
        | inl e ↦ rw e (set_waveform-outcome channel true period pulse t)
        | inr e ↦
            let f : (flags == hal.polarity_normal) ≡ true = ground arith in
            rw (e, f) (set_waveform-outcome channel false period pulse t)
      ]
