-- ===== src/Adc/Isr/Results.antt =====
-- The results that hpmicro_adc12_isr stores.
use hpm_support.Prelude.{
  ℕ, zero, suc, ◌+◌, ◌-◌, ◌*◌, ◌/◌, ◌%◌, ◌^◌, ◌<◌, ◌≡◌, ◌≢◌, ◌∙◌, refl, ap, arith, true, false,
  some, List, [], ◌∷◌, ◌==◌, length, get_elem?, Bool-cases, inl, inr, test_bit, clear_bit,
}
use hpm_support.Adc.Types.{Dev}
use hpm_support.Adc.Hal.{Os, Hal}
use hpm_support.Adc.Channels.{
  bits_from, LsbLaws, no_bit, not_zero, clear_bit-le, bits_from-clear_bit, below_next,
  below_clear_next,
}
use hpm_support.Adc.Isr.{scaled, store, store_result, store_results}

-- The results of the channels, one after the other
module _ {Ctx Hw : Type 0} (os : Os Ctx Hw) (hal : Hal Hw) where
  abbrev pub store_list : List ℕ → Dev Ctx Hw → Dev Ctx Hw
  store_list [] d = d
  store_list (i ∷ is) d = store_list is (store_result os hal (hal.oneshot_result i d.hw) d)

module _ {Ctx Hw : Type 0} (os : Os Ctx Hw) (hal : Hal Hw) (laws : LsbLaws os) where
  store_results-zero : (f : ℕ) (d : Dev Ctx Hw) → 0 < f → store_results os hal f 0 d ≡ some d
  unfolding store_results
  store_results-zero zero d l = absurd (omega (arith, l))
  store_results-zero (suc f) d l = refl

  store_results-bit :
      (f w i : ℕ) (d : Dev Ctx Hw)
      → i < 32
      → test_bit w i ≡ true
      → ((j : ℕ) → j < i → test_bit w j ≡ false)
      → store_results os hal (suc f) w d
        ≡ store_results os hal f (clear_bit w i) (store_result os hal (hal.oneshot_result i d.hw) d)
  unfolding store_results
  store_results-bit f w i d r t h =
      let e : os.find_lsb_set w - 1 ≡ i = omega (arith, laws.lsb_lem w i r t h) in
      rw (not_zero w i t, e) refl

  -- The loop on a word without a bit below `i`
  store_results-from :
      (n i f w : ℕ) (d : Dev Ctx Hw)
      → i + n ≡ 32
      → n < f
      → w < 2 ^ 32
      → ((j : ℕ) → j < i → test_bit w j ≡ false)
      → store_results os hal f w d ≡ some (store_list os hal (bits_from n i w) d)
  store_results-from zero i f w d e l b h =
      let z : w ≡ 0 = no_bit w b (λ j x. h j (omega (arith, e, x))) in
      rw z (store_results-zero f d l)
  store_results-from (suc n) i zero w d e l b h = absurd (omega (arith, l))
  store_results-from (suc n) i (suc f) w d e l b h = elim (Bool-cases (test_bit w i)) [
    | inl t ↦
        let c = clear_bit w i in
        let r = store_result os hal (hal.oneshot_result i d.hw) d in
        let x =
          store_results-from n (suc i) f c r (omega (arith, e)) (omega (arith, l))
            (omega (arith, b, clear_bit-le w i)) (λ j y. below_clear_next w i j h y) in
        let g = bits_from-clear_bit n (suc i) i w (omega arith) in
        store_results-bit f w i d (omega (arith, e)) t h ∙ x ∙ rw (g, t) refl
    | inr t ↦
        store_results-from n (suc i) (suc f) w d (omega (arith, e)) (omega (arith, l)) b
          (λ j y. below_next w i j h t y)
        ∙ rw t refl
  ]

  -- The loop of the interrupt ends in at most 33 rounds, and has then stored the results of the
  -- channels that are set in the word, one each, from the lowest to the highest.
  pub store_results-bits :
      (w : ℕ) (d : Dev Ctx Hw)
      → w < 2 ^ 32
      → store_results os hal 33 w d ≡ some (store_list os hal (bits_from 32 0 w) d)
  store_results-bits w d b =
      store_results-from 32 0 33 w d (omega arith) (omega arith) b
        (λ j l. absurd (omega (arith, l)))

-- What the channels give, one after the other: the raw results
module _ {Hw : Type 0} (hal : Hal Hw) where
  abbrev pub results : List ℕ → Hw → List ℕ
  results [] hw = []
  results (i ∷ is) hw = (hal.oneshot_result i hw).0 ∷ results is (hal.oneshot_result i hw).1

module _ {Ctx Hw : Type 0} where
  -- The memory and the pointer once the results `rs` have been stored: result `k` stands in element
  -- `k` of the buffer, as the bits 4 to 19 shifted down to the resolution; no other address has
  -- changed, and the pointer is behind the last element.
  pub record Filled (rs : List ℕ) (d e : Dev Ctx Hw) : Type 0 where
    pub values :
        (k r : ℕ)
        → get_elem? rs k ≡ some r
        → e.mem (d.buffer + 2 * k) ≡ r / 16 % 65536 / 2 ^ (12 - d.resolution)
    pub others : (a : ℕ) → ((k : ℕ) → k < length rs → a ≢ d.buffer + 2 * k) → e.mem a ≡ d.mem a
    pub buffer : e.buffer ≡ d.buffer + 2 * length rs

store_ne : (a x v : ℕ) (mem : ℕ → ℕ) → x ≢ a → store a v mem x ≡ mem x
store_ne a x v mem n = let e : (x == a) ≡ false = ground (arith, n) in rw e refl

store_self : (a v : ℕ) (mem : ℕ → ℕ) → store a v mem a ≡ v
store_self a v mem = let e : (a == a) ≡ true = ground arith in rw e refl

module _ {Ctx Hw : Type 0} (os : Os Ctx Hw) (hal : Hal Hw) where
  store_list-others :
      (is : List ℕ) (d : Dev Ctx Hw) (a : ℕ)
      → ((k : ℕ) → k < length (results hal is d.hw) → a ≢ d.buffer + 2 * k)
      → (store_list os hal is d).mem a ≡ d.mem a
  store_list-others [] d a h = refl
  store_list-others (i ∷ is) d a h =
      let s = store_result os hal (hal.oneshot_result i d.hw) d in
      store_list-others is s a (λ k l q. h (suc k) (omega (arith, l)) (omega (arith, q)))
      ∙ store_ne d.buffer a (scaled d.resolution (hal.oneshot_result i d.hw).0) d.mem
          (λ q. h 0 (omega arith) (omega (arith, q)))

  store_list-values :
      (is : List ℕ) (d : Dev Ctx Hw) (k r : ℕ)
      → get_elem? (results hal is d.hw) k ≡ some r
      → (store_list os hal is d).mem (d.buffer + 2 * k) ≡ r / 16 % 65536 / 2 ^ (12 - d.resolution)
  store_list-values [] d k r e = cc
  store_list-values (i ∷ is) d zero r e =
      let o = hal.oneshot_result i d.hw in
      let q : o.0 ≡ r = cc in
      store_list-others is (store_result os hal o d) (d.buffer + 0)
        (λ k l x. absurd (omega (arith, x)))
      ∙ ap (store d.buffer (scaled d.resolution o.0) d.mem) (omega arith)
      ∙ store_self d.buffer (scaled d.resolution o.0) d.mem
      ∙ ap (λ x. x / 16 % 65536 / 2 ^ (12 - d.resolution)) q
  store_list-values (i ∷ is) d (suc k) r e =
      let s = store_result os hal (hal.oneshot_result i d.hw) d in
      ap (λ x. (store_list os hal is s).mem x) (omega arith) ∙ store_list-values is s k r e

  store_list-buffer :
      (is : List ℕ) (d : Dev Ctx Hw)
      → (store_list os hal is d).buffer ≡ d.buffer + 2 * length (results hal is d.hw)
  store_list-buffer [] d = omega arith
  store_list-buffer (i ∷ is) d =
      let s = store_result os hal (hal.oneshot_result i d.hw) d in
      store_list-buffer is s ∙ omega arith

  pub store_list-Filled :
      (is : List ℕ) (d : Dev Ctx Hw) → Filled (results hal is d.hw) d (store_list os hal is d)
  store_list-Filled is d = record {
    values = store_list-values is d;
    others = store_list-others is d;
    buffer = store_list-buffer is d;
  }
