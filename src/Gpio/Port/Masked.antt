-- ===== src/Gpio/Port/Masked.antt =====
-- The masked write of a port, pin by pin.
use hpm_support.Prelude.{
  ℕ, ◌<◌, ◌≡◌, ◌∙◌, refl, sym, ap, Bool, true, false, not, ◌&&◌, ◌||◌, ◌==◌, arith, if◌then◌else◌,
  Bool-cases, inl, inr, test_bit, word_and, word_not, test_bit-word_or, test_bit-word_and,
  test_bit-word_not, test_bit-zero,
}
use hpm_support.Gpio.Types.{Dev, Hal}
use hpm_support.Gpio.Port.{port_get_raw, merge, port_set_masked_raw}

choose : (p m v : Bool) → ((p && not m) || (m && v)) ≡ (if m then v else p)
choose true true v = refl
choose false true v = refl
choose true false v = refl
choose false false v = refl

and_true : (b : Bool) → (b && true) ≡ b
and_true true = refl
and_true false = refl

test_bit-merge :
    (port mask value i : ℕ)
    → i < 32
    → test_bit (merge port mask value) i
      ≡ (if test_bit mask i then test_bit value i else test_bit port i)
test_bit-merge port mask value i h =
    test_bit-word_or 32 (word_and 32 port (word_not 32 mask)) (word_and 32 mask value) i h
    ∙ rw
        (
          test_bit-word_and 32 port (word_not 32 mask) i h,
          test_bit-word_and 32 mask value i h,
          test_bit-word_not 32 mask i h,
        )
        (choose (test_bit port i) (test_bit mask i) (test_bit value i))

module _ {Hw Cbs : Type 0} (hal : Hal Hw Cbs) where
  -- An output reads as it was last written.
  pub record OutputLaws : Type 0 where
    pub reads :
        (w i : ℕ) (hw : Hw)
        → i < 32
        → test_bit (hal.output_enable hw) i ≡ true
        → test_bit (hal.read_port (hal.write_port w hw)) i ≡ test_bit w i

  -- After a masked write, every output of the port that is in the mask reads as the value and every
  -- other output reads as before, also when the mask holds no output and nothing is written.
  pub port_set_masked_raw-bits :
      (laws : OutputLaws) (mask value : ℕ) (d : Dev Hw Cbs) (i : ℕ)
      → i < 32
      → test_bit (hal.output_enable d.hw) i ≡ true
      → test_bit (port_get_raw hal (port_set_masked_raw hal mask value d).1) i
        ≡ (if test_bit mask i then test_bit value i else test_bit (port_get_raw hal d) i)
  unfolding port_get_raw port_set_masked_raw
  port_set_masked_raw-bits laws mask value d i h out =
      let m = word_and 32 mask (hal.output_enable d.hw) in
      let same : test_bit m i ≡ test_bit mask i =
        test_bit-word_and 32 mask (hal.output_enable d.hw) i h
        ∙ rw out (and_true (test_bit mask i)) in
      elim (Bool-cases (m == 0)) [
        | inl e ↦
            let z : m ≡ 0 = ground arith in
            let off : test_bit mask i ≡ false =
              sym same ∙ ap (λ w. test_bit w i) z ∙ test_bit-zero i in
            rw (e, off)
        | inr e ↦ rw e (
            laws.reads (merge (hal.read_port d.hw) m value) i d.hw h out
            ∙ test_bit-merge (hal.read_port d.hw) m value i h
            ∙ rw same)
      ]
