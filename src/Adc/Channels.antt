-- ===== src/Adc/Channels.antt =====
-- The channels of a word, as the loops of drivers/adc/adc_hpmicro_adc12.c take them.
use hpm_support.Prelude.{
  ℕ, zero, suc, ◌/◌, ◌^◌, ◌<◌, ◌≤◌, ◌≡◌, ◌≢◌, ◌==◌, ◌∙◌, refl, ap, sym, arith, true, false, List,
  [], ◌∷◌, if◌then◌else◌, Bool-cases, inl, inr, test_bit, clear_bit, test_bit-clear_bit_self,
  test_bit-clear_bit_ne, test_bit-zero, eq_of_test_bit,
}
use hpm_support.Adc.Hal.{Os}

-- The bits of a word from `i` on, `n` of them looked at
abbrev pub bits_from : ℕ → ℕ → ℕ → List ℕ
bits_from zero i w = []
bits_from (suc n) i w = if test_bit w i then i ∷ bits_from n (suc i) w else bits_from n (suc i) w

-- `find_lsb_set` as Zephyr documents it: one more than the number of the lowest bit that is set
pub record LsbLaws {Ctx Hw : Type 0} (os : Os Ctx Hw) : Type 0 where
  pub lsb_lem :
      (w i : ℕ)
      → i < 32
      → test_bit w i ≡ true
      → ((j : ℕ) → j < i → test_bit w j ≡ false)
      → os.find_lsb_set w ≡ suc i

pub clear_bit-le : (w i : ℕ) → clear_bit w i ≤ w
unfolding clear_bit
clear_bit-le w zero = omega arith
clear_bit-le w (suc i) = omega (arith, clear_bit-le (w / 2) i)

-- A bit below those looked at is not seen.
pub bits_from-clear_bit : (n i b w : ℕ) → b < i → bits_from n i (clear_bit w b) ≡ bits_from n i w
bits_from-clear_bit zero i b w h = refl
bits_from-clear_bit (suc n) i b w h =
    let ne : b ≢ i = λ e. absurd (omega (arith, h, e)) in
    rw (test_bit-clear_bit_ne w b i ne, bits_from-clear_bit n (suc i) b w (omega (arith, h))) refl

pub no_bit : (w : ℕ) → w < 2 ^ 32 → ((j : ℕ) → j < 32 → test_bit w j ≡ false) → w ≡ 0
no_bit w b h = eq_of_test_bit 32 w 0 b (omega arith) (λ j l. h j l ∙ sym (test_bit-zero j))

-- The bits below the next one, when it is clear too
pub below_next :
    (w i j : ℕ)
    → ((k : ℕ) → k < i → test_bit w k ≡ false)
    → test_bit w i ≡ false
    → j < suc i
    → test_bit w j ≡ false
below_next w i j h c l = elim (Bool-cases (j == i)) [
  | inl e ↦ let x : j ≡ i = ground (arith, e) in rw x c
  | inr e ↦ h j (ground (arith, e, l))
]

pub below_clear :
    (w i k : ℕ)
    → ((j : ℕ) → j < i → test_bit w j ≡ false)
    → k < i
    → test_bit (clear_bit w i) k ≡ false
below_clear w i k h l = test_bit-clear_bit_ne w i k (λ x. absurd (omega (arith, l, x))) ∙ h k l

-- A word with a bit is not 0.
pub not_zero : (w i : ℕ) → test_bit w i ≡ true → (w == 0) ≡ false
not_zero w i t = elim (Bool-cases (w == 0)) [
  | inl e ↦
      let z : w ≡ 0 = ground (arith, e) in
      let c : true ≡ false = sym t ∙ ap (λ x. test_bit x i) z ∙ test_bit-zero i in cc
  | inr e ↦ e
]

pub below_clear_next :
    (w i j : ℕ)
    → ((k : ℕ) → k < i → test_bit w k ≡ false)
    → j < suc i
    → test_bit (clear_bit w i) j ≡ false
below_clear_next w i j h l =
    below_next (clear_bit w i) i j (λ k z. below_clear w i k h z) (test_bit-clear_bit_self w i) l
