-- ===== src/Can/Tx/Batch.antt =====
-- `hpm_can_send_batch` from an idle transmitter, and the words that `hpm_can_fill_tx_buffer` writes.
use hpm_support.Prelude.{
  ℕ, zero, suc, ◌+◌, ◌*◌, ◌≤◌, ◌<◌, ◌≡◌, refl, ap, true, false, Bool, Option, none, some, List, [],
  ◌∷◌, arith, ltb, ◌==◌, ◌||◌, length, Bool-cases, inl, inr,
}
use hpm_support.Errno.{Errno, Status, success, on_ok_ind, err}
use hpm_support.Zephyr.{Timeout}
use hpm_support.Can.Types.{Frame, TxBuf, Pointer, Dev}
use hpm_support.Can.Hal.{Hal, Os, OsLaws}
use hpm_support.Can.Tx.{
  validate_all, check_bus, copy_words, fill_words, fill_tx_buffer, load_frames, batch_claimed,
  send_batch, await_completion,
}
use hpm_support.Can.Tx.Idle.{IsIdle, claimed, claim_tx-IsIdle, in_flight, in_flight_lem, given_back}

module _ {Hw : Type 0} (hal : Hal Hw) where
  -- The words of a transmit buffer at the indices of a list, written in order.
  abbrev pub write_words : TxBuf → List ℕ → Hw → Hw
  write_words m [] hw = hw
  write_words m (k ∷ ks) hw = write_words m ks (hal.write_tbuf k (hal.tx_word m k) hw)

  -- The `n` numbers from `i` on.
  abbrev pub range : ℕ → ℕ → List ℕ
  range zero i = []
  range (suc n) i = i ∷ range n (i + 1)

  fill_words-write_words :
      (n i j : ℕ) (m : TxBuf) (hw : Hw)
      → 2 + i ≡ j
      → fill_words hal n i m hw ≡ write_words m (range n j) hw
  unfolding fill_words
  fill_words-write_words zero i j m hw e = refl
  fill_words-write_words (suc n) i j m hw e =
      rw (← e) (fill_words-write_words n (i + 1) (2 + i + 1) m _ (omega arith))

  -- `hpm_can_fill_tx_buffer` writes the words 0, 1, 2, ... in order, each once: the two words of the
  -- header and then as many payload words as hold the bytes of the frame, and no more.
  pub fill_tx_buffer-write_words :
      (m : TxBuf) (hw : Hw)
      → (fill_tx_buffer hal m hw ≡ write_words m (0 ∷ 1 ∷ range (copy_words hal m) 2) hw)
        × (hal.dlc_to_bytes m.dlc ≤ 4 * copy_words hal m)
        × (4 * copy_words hal m < hal.dlc_to_bytes m.dlc + 4)
  unfolding fill_tx_buffer copy_words
  fill_tx_buffer-write_words m hw =
      (fill_words-write_words (copy_words hal m) 0 2 m _ (omega arith), omega arith, omega arith)

module _ {Hw : Type 0} (hal : Hal Hw) (os : Os Hw) (laws : OsLaws os) (fd : Bool) where
  batch_claimed-err :
      (fs : List Frame) (cb arg : Pointer) (d : Dev Hw) (e : Errno)
      → IsIdle d.drv
      → let (r, d') = batch_claimed hal os fs cb arg (claimed d) in r ≡ err e → d' ≡ d
  unfolding batch_claimed
  batch_claimed-err fs cb arg d e v = elim (Bool-cases (hal.stb_empty d.hw)) [
    | inl t ↦ rw t (λ h. cc)
    | inr f ↦ rw f (λ h. ap (λ s. record d { drv = s }) (given_back os laws d.drv v))
  ]

  -- Every error of `hpm_can_send_batch` from an idle transmitter leaves the device as it was, the
  -- controller included: no frame of the batch has been loaded.
  pub send_batch-err :
      (fs : Option (List Frame)) (t : Timeout) (cb arg : Pointer) (d : Dev Hw) (e : Errno)
      → IsIdle d.drv
      → let (r, d') = send_batch hal os fd fs t cb arg d in r ≡ err e → d' ≡ d
  unfolding send_batch
  send_batch-err none t cb arg d e v = λ h. refl
  send_batch-err (some fs) t cb arg d e v =
      let P : Status × Dev Hw → Type 0 = λ p. p.0 ≡ err e → p.1 ≡ d in
      rw (claim_tx-IsIdle os laws hal t d v)
        (elim (Bool-cases (length fs == 0 || ltb 4 (length fs))) [
          | inl t ↦ rw t (λ h. refl)
          | inr f ↦ rw f (
              on_ok_ind P (validate_all hal fd d.drv fs) _ d (λ e' h. refl)
                (on_ok_ind P (check_bus hal os d) _ d (λ e' h. refl)
                  (batch_claimed-err fs cb arg d e v)))
        ])

  -- A batch of one to four valid frames on a running bus, with the secondary transmit buffer empty,
  -- is loaded frame by frame and started once; its callback waits in the slot, the mutex is free and
  -- the semaphore is taken.
  pub send_batch-sent :
      (fs : List Frame) (t : Timeout) (cb : ℕ) (arg : Pointer) (d : Dev Hw)
      → 0 < length fs
      → length fs ≤ 4
      → IsIdle d.drv
      → validate_all hal fd d.drv fs ≡ success
      → check_bus hal os d ≡ success
      → hal.stb_empty d.hw ≡ true
      → send_batch hal os fd (some fs) t (some cb) arg d ≡ (
        success,
        record d {
          drv = in_flight (some cb) arg d.drv;
          hw =
              hal.start_all_message_transmit
                (load_frames hal os fs (hal.select_tx_buffer true d.hw));
        },
      )
  unfolding send_batch batch_claimed await_completion
  send_batch-sent fs t cb arg d lo hi v valid up empty =
      let count : (length fs == 0 || ltb 4 (length fs)) ≡ false = ground arith in
      rw (claim_tx-IsIdle os laws hal t d v, count, valid, up, empty)
        (ap
          (λ x. (
            success,
            record d {
              drv = x;
              hw =
                  hal.start_all_message_transmit
                    (load_frames hal os fs (hal.select_tx_buffer true d.hw));
            },
          ))
          (in_flight_lem os laws d.drv (some cb) arg v))
