-- ===== src/Mcan/State/Truncated.antt =====
-- The interrupt flags that `hpm_mcan_get_state` keeps.
use native.Mathlib.Decide.{dec_lt}
use hpm_support.Prelude.{
  ℕ, ◌%◌, ◌^◌, ◌<◌, ◌≡◌, ◌∙◌, refl, sym, Bool, true, false, ◌&&◌, arith, test_bit, word_and,
  test_bit-word_and, test_bit-zero, word_and-lt, test_bit_above, eq_of_test_bit,
}
use hpm_support.Can.Types.{error_active}
use hpm_support.Mcan.Types.{Dev}
use hpm_support.Mcan.Hal.{Hal}
use hpm_support.Mcan.State.{sees_error, get_state, get_err_cnt}

and_false : (b : Bool) → (b && false) ≡ false
and_false true = refl
and_false false = refl

-- No bit of the word is below bit 8.
abbrev pub HasNoLowBit : ℕ → Type 0
HasNoLowBit w = (i : ℕ) → i < 8 → test_bit w i ≡ false

no_common_bit : (w mask : ℕ) → HasNoLowBit mask → word_and 32 (w % 2 ^ 8) mask ≡ 0
no_common_bit w mask low =
    eq_of_test_bit 32 (word_and 32 (w % 2 ^ 8) mask) 0 (word_and-lt 32 (w % 2 ^ 8) mask)
      (omega arith)
      (λ i l.
        test_bit-word_and 32 (w % 2 ^ 8) mask i l
        ∙ elim (dec_lt i 8) [
          | yes h ↦ rw (low i h) (and_false _)
          | no h ↦ rw (test_bit_above 8 (w % 2 ^ 8) i (omega arith) (omega arith)) refl
        ]
        ∙ sym (test_bit-zero i))

module _ {Hw : Type 0} (hal : Hal Hw) where
  -- The flags are kept in eight bits: if every flag of the error event is above them, as the
  -- controller has them, a controller that runs is always reported as error active with error counts
  -- of 0, also when it is bus-off.
  pub get_state-truncated :
      (d : Dev Hw)
      → HasNoLowBit hal.event_error
      → d.drv.started ≡ true
      → (get_state hal d ≡ error_active)
        × (get_err_cnt hal d ≡ record { tx_err_cnt = 0; rx_err_cnt = 0 })
  unfolding get_state get_err_cnt sees_error
  get_state-truncated d low up =
      let e = no_common_bit (hal.interrupt_flags d.hw) hal.event_error low in
      rw (up, e) (refl, refl)
