-- ===== src/Prelude/Bits.antt =====
-- Machine words as native numbers, read bit by bit. The recursions are on the number of the bit or
-- on the width, so that their laws hold at every word.
use Prim.Native.Nat.{ℕ, zero, suc, ◌+◌, ◌-◌, ◌*◌, ◌/◌, ◌%◌, ◌^◌, ◌<◌, ◌≤◌, max, min}
use mathlib.Core.Path.{◌≡◌, refl, ap, ◌∙◌}
use mathlib.Core.Logic.{◌≢◌}
use mathlib.Core.Bool.{Bool, true, false, ◌||◌, ◌&&◌, not}
use native.Mathlib.Nat.{pow-suc}
use native.Mathlib.Omega.{arith}
use hpm_support.Prelude.Tests.{◌==◌}

-- Bit `i` of the word `w`.
abbrev pub test_bit : ℕ → ℕ → Bool
test_bit w zero = w % 2 == 1
test_bit w (suc i) = test_bit (w / 2) i

-- `w | (1U << i)`
unfoldable pub set_bit : ℕ → ℕ → ℕ
set_bit w zero = w / 2 * 2 + 1
set_bit w (suc i) = set_bit (w / 2) i * 2 + w % 2

-- `w & ~(1U << i)`
unfoldable pub clear_bit : ℕ → ℕ → ℕ
clear_bit w zero = w / 2 * 2
clear_bit w (suc i) = clear_bit (w / 2) i * 2 + w % 2

-- `a | b` on words of `n` bits.
unfoldable pub word_or : ℕ → ℕ → ℕ → ℕ
word_or zero a b = 0
word_or (suc n) a b = word_or n (a / 2) (b / 2) * 2 + max (a % 2) (b % 2)

-- `a & b` on words of `n` bits.
unfoldable pub word_and : ℕ → ℕ → ℕ → ℕ
word_and zero a b = 0
word_and (suc n) a b = word_and n (a / 2) (b / 2) * 2 + min (a % 2) (b % 2)

-- `~a` on words of `n` bits.
unfoldable pub word_not : ℕ → ℕ → ℕ
word_not zero a = 0
word_not (suc n) a = word_not n (a / 2) * 2 + (1 - a % 2)

-- Doubling a word and adding a low bit moves every bit up by one.
test_bit-double : (w b i : ℕ) → b < 2 → test_bit (w * 2 + b) (suc i) ≡ test_bit w i
test_bit-double w b i h = let e : (w * 2 + b) / 2 ≡ w = omega arith in rw e

pub test_bit-set_bit_self : (w i : ℕ) → test_bit (set_bit w i) i ≡ true
unfolding set_bit
test_bit-set_bit_self w zero = ground arith
test_bit-set_bit_self w (suc i) =
    test_bit-double (set_bit (w / 2) i) (w % 2) i (omega arith) ∙ test_bit-set_bit_self (w / 2) i

pub test_bit-set_bit_ne : (w i j : ℕ) → i ≢ j → test_bit (set_bit w i) j ≡ test_bit w j
unfolding set_bit
test_bit-set_bit_ne w zero zero h = absurd (h refl)
test_bit-set_bit_ne w zero (suc j) h = test_bit-double (w / 2) 1 j (omega arith)
test_bit-set_bit_ne w (suc i) zero h =
    let e : (set_bit (w / 2) i * 2 + w % 2) % 2 ≡ w % 2 = omega arith in rw e
test_bit-set_bit_ne w (suc i) (suc j) h =
    test_bit-double (set_bit (w / 2) i) (w % 2) j (omega arith)
    ∙ test_bit-set_bit_ne (w / 2) i j (λ e. h (ap suc e))

pub test_bit-clear_bit_self : (w i : ℕ) → test_bit (clear_bit w i) i ≡ false
unfolding clear_bit
test_bit-clear_bit_self w zero = ground arith
test_bit-clear_bit_self w (suc i) =
    test_bit-double (clear_bit (w / 2) i) (w % 2) i (omega arith)
    ∙ test_bit-clear_bit_self (w / 2) i

pub test_bit-clear_bit_ne : (w i j : ℕ) → i ≢ j → test_bit (clear_bit w i) j ≡ test_bit w j
unfolding clear_bit
test_bit-clear_bit_ne w zero zero h = absurd (h refl)
test_bit-clear_bit_ne w zero (suc j) h = let e : w / 2 * 2 / 2 ≡ w / 2 = omega arith in rw e
test_bit-clear_bit_ne w (suc i) zero h =
    let e : (clear_bit (w / 2) i * 2 + w % 2) % 2 ≡ w % 2 = omega arith in rw e
test_bit-clear_bit_ne w (suc i) (suc j) h =
    test_bit-double (clear_bit (w / 2) i) (w % 2) j (omega arith)
    ∙ test_bit-clear_bit_ne (w / 2) i j (λ e. h (ap suc e))

pub test_bit-word_or :
    (n a b i : ℕ) → i < n → test_bit (word_or n a b) i ≡ (test_bit a i || test_bit b i)
unfolding word_or
test_bit-word_or zero a b i h = absurd (omega arith)
test_bit-word_or (suc n) a b zero h = ground arith
test_bit-word_or (suc n) a b (suc i) h =
    test_bit-double (word_or n (a / 2) (b / 2)) (max (a % 2) (b % 2)) i (omega arith)
    ∙ test_bit-word_or n (a / 2) (b / 2) i (omega arith)

pub test_bit-word_and :
    (n a b i : ℕ) → i < n → test_bit (word_and n a b) i ≡ (test_bit a i && test_bit b i)
unfolding word_and
test_bit-word_and zero a b i h = absurd (omega arith)
test_bit-word_and (suc n) a b zero h = ground arith
test_bit-word_and (suc n) a b (suc i) h =
    test_bit-double (word_and n (a / 2) (b / 2)) (min (a % 2) (b % 2)) i (omega arith)
    ∙ test_bit-word_and n (a / 2) (b / 2) i (omega arith)

pub test_bit-zero : (i : ℕ) → test_bit 0 i ≡ false
test_bit-zero zero = refl
test_bit-zero (suc i) = test_bit-zero i

pub test_bit-word_not : (n a i : ℕ) → i < n → test_bit (word_not n a) i ≡ not (test_bit a i)
unfolding word_not
test_bit-word_not zero a i h = absurd (omega arith)
test_bit-word_not (suc n) a zero h = ground arith
test_bit-word_not (suc n) a (suc i) h =
    test_bit-double (word_not n (a / 2)) (1 - a % 2) i (omega arith)
    ∙ test_bit-word_not n (a / 2) i (omega arith)

pub word_or-lt : (n a b : ℕ) → word_or n a b < 2 ^ n
unfolding word_or
word_or-lt zero a b = omega arith
word_or-lt (suc n) a b = omega (arith, word_or-lt n (a / 2) (b / 2), pow-suc 2 n)

pub word_and-lt : (n a b : ℕ) → word_and n a b < 2 ^ n
unfolding word_and
word_and-lt zero a b = omega arith
word_and-lt (suc n) a b = omega (arith, word_and-lt n (a / 2) (b / 2), pow-suc 2 n)

-- A word of `n` bits has no bit from `n` on.
pub test_bit_above : (n w i : ℕ) → w < 2 ^ n → n ≤ i → test_bit w i ≡ false
test_bit_above zero w i h l = let e : w ≡ 0 = omega arith in rw e (test_bit-zero i)
test_bit_above (suc n) w zero h l = absurd (omega arith)
test_bit_above (suc n) w (suc i) h l =
    test_bit_above n (w / 2) i (omega (arith, pow-suc 2 n)) (omega arith)

-- Two words of `n` bits are equal if their bits are.
pub eq_of_test_bit :
    (n a b : ℕ) → a < 2 ^ n → b < 2 ^ n → ((i : ℕ) → i < n → test_bit a i ≡ test_bit b i) → a ≡ b
eq_of_test_bit zero a b ha hb h = omega arith
eq_of_test_bit (suc n) a b ha hb h =
    let low : a % 2 ≡ b % 2 = ground (arith, h 0 (omega arith)) in
    let high : a / 2 ≡ b / 2 =
      eq_of_test_bit n (a / 2) (b / 2) (omega (arith, pow-suc 2 n)) (omega (arith, pow-suc 2 n))
        (λ i l. h (suc i) (omega arith)) in
    omega arith
