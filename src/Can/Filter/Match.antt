-- ===== src/Can/Filter/Match.antt =====
-- What the hardware filter test of `hpm_can_get_first_filter_index` means for a filter that
-- `hpm_can_add_rx_filter` has written.
use hpm_support.Prelude.{
  ℕ, ◌<◌, ◌≡◌, ◌↔◌, ◌∙◌, refl, sym, ap, Bool, true, false, not, ◌&&◌, ◌||◌, arith, ==_iff, test_bit,
  word_or, word_not, word_or-lt, test_bit-word_or, test_bit-word_not, eq_of_test_bit, if◌then◌else◌,
}
use hpm_support.Can.Types.{RxBuf, CanFilter, extended, standard}
use hpm_support.Can.Filter.{accepts, entry, is_extended}

-- A frame passes a filter of Zephyr: it is of the filter's kind, and its identifier agrees with the
-- filter's on each of the 32 bits that the mask sets.
pub record Passes (f : CanFilter) (b : RxBuf) : Type 0 where
  pub kind : b.extend_id ≡ f.ide
  pub bits : (k : ℕ) → k < 32 → test_bit f.mask k ≡ true → test_bit b.id k ≡ test_bit f.id k

or_not_cancel : (x y m : Bool) → (x || not m) ≡ (y || not m) → m ≡ true → x ≡ y
or_not_cancel x y m e h = ground arith

or_not_intro : (x y m : Bool) → (m ≡ true → x ≡ y) → (x || not m) ≡ (y || not m)
or_not_intro x y true h = ap (λ b. b || false) (h refl)
or_not_intro true true false h = refl
or_not_intro true false false h = refl
or_not_intro false true false h = refl
or_not_intro false false false h = refl

-- Bit `k` of the words that the test compares.
bit_of_masked :
    (x m k : ℕ)
    → k < 32
    → test_bit (word_or 32 x (word_not 32 m)) k ≡ (test_bit x k || not (test_bit m k))
bit_of_masked x m k h =
    test_bit-word_or 32 x (word_not 32 m) k h
    ∙ ap (λ b. test_bit x k || b) (test_bit-word_not 32 m k h)

masked_eq :
    (x y m : ℕ)
    → ((k : ℕ) → k < 32 → test_bit m k ≡ true → test_bit x k ≡ test_bit y k)
    → word_or 32 x (word_not 32 m) ≡ word_or 32 y (word_not 32 m)
masked_eq x y m h =
    eq_of_test_bit 32 (word_or 32 x (word_not 32 m)) (word_or 32 y (word_not 32 m))
      (word_or-lt 32 x (word_not 32 m)) (word_or-lt 32 y (word_not 32 m))
      (λ k l. bit_of_masked x m k l ∙ or_not_intro _ _ _ (h k l) ∙ sym (bit_of_masked y m k l))

bits_of_masked :
    (x y m : ℕ)
    → word_or 32 x (word_not 32 m) ≡ word_or 32 y (word_not 32 m)
    → (k : ℕ) → k < 32
    → test_bit m k ≡ true
    → test_bit x k ≡ test_bit y k
bits_of_masked x y m e k l h =
    or_not_cancel _ _ _
      (sym (bit_of_masked x m k l) ∙ ap (λ w. test_bit w k) e ∙ bit_of_masked y m k l) h

-- The test of the identifier kind, on the kind that was written for the flag `b`.
abbrev kind_test : Bool → Bool → Bool
kind_test a b =
    a && is_extended (if b then extended else standard)
    || not a && not (is_extended (if b then extended else standard))

eq_of_kind_test : (a b : Bool) → kind_test a b ≡ true → a ≡ b
eq_of_kind_test true true h = refl
eq_of_kind_test true false h = cc
eq_of_kind_test false true h = cc
eq_of_kind_test false false h = refl

kind_test_self : (a : Bool) → kind_test a a ≡ true
kind_test_self true = refl
kind_test_self false = refl

and_left : (a b : Bool) → (a && b) ≡ true → a ≡ true
and_left a b h = ground arith

and_right : (a b : Bool) → (a && b) ≡ true → b ≡ true
and_right a b h = ground arith

Passes-of_accepts : (i : ℕ) (f : CanFilter) (b : RxBuf) → accepts (entry i f) b ≡ true → Passes f b
unfolding accepts
Passes-of_accepts i f b h = record {
  kind = eq_of_kind_test b.extend_id f.ide (and_left (kind_test b.extend_id f.ide) _ h);
  bits =
      bits_of_masked b.id f.id f.mask
        ((==_iff _ _).0 (and_right (kind_test b.extend_id f.ide) _ h));
}

accepts_of_Passes : (i : ℕ) (f : CanFilter) (b : RxBuf) → Passes f b → accepts (entry i f) b ≡ true
unfolding accepts
accepts_of_Passes i f b p =
    rw (p.kind, kind_test_self f.ide) ((==_iff _ _).1 (masked_eq b.id f.id f.mask p.bits))

-- The test on the entry that was written for a filter succeeds exactly when the frame passes the
-- filter, so the complemented mask and the two ORs of the driver are the masked comparison.
pub accepts-Passes :
    (i : ℕ) (f : CanFilter) (b : RxBuf) → (accepts (entry i f) b ≡ true) ↔ Passes f b
accepts-Passes i f b = (Passes-of_accepts i f b, accepts_of_Passes i f b)
