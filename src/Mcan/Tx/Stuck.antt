-- ===== src/Mcan/Tx/Stuck.antt =====
-- The flag `has_sent_out` after a failed `hpm_mcan_send`.
use hpm_support.Prelude.{
  ℕ, zero, suc, ◌≡◌, ◌∙◌, refl, sym, ap, Bool, true, false, Option, none, some, Bool-cases, inl,
  inr,
}
use hpm_support.Errno.{Errno, Status, success, err}
use hpm_support.Zephyr.{Timeout}
use hpm_support.Can.Types.{Frame, Pointer}
use hpm_support.Can.State.{is_bus_off}
use hpm_support.Mcan.Types.{Dev}
use hpm_support.Mcan.Hal.{Hal, Os}
use hpm_support.Mcan.State.{get_state}
use hpm_support.Mcan.Tx.{
  validate_send, wait_sent, transmit, send_ready, send, convert_frame, put_callback,
}

module _ {Hw : Type 0} (hal : Hal Hw) (os : Os Hw) where
  -- Waiting for the kernel does not set the flag: no frame is on its way.
  pub record StaysUnsent : Type 0 where
    pub spin : (d : Dev Hw) → d.has_sent_out ≡ false → (os.spin d).has_sent_out ≡ false
    pub take_tx_sem :
        (t : Timeout) (d : Dev Hw)
        → d.has_sent_out ≡ false
        → (os.take_tx_sem t d).1.has_sent_out ≡ false
    pub lock_tx_mutex :
        (t : Timeout) (d : Dev Hw)
        → d.has_sent_out ≡ false
        → (os.lock_tx_mutex t d).1.has_sent_out ≡ false

  wait_sent-none :
      (laws : StaysUnsent) (n : ℕ) (d : Dev Hw)
      → d.has_sent_out ≡ false
      → wait_sent hal os n d ≡ none
  unfolding wait_sent
  wait_sent-none laws zero d h = refl
  wait_sent-none laws (suc n) d h = simp (h, wait_sent-none laws n (os.spin d) (laws.spin d h))

  transmit-err :
      (laws : StaysUnsent) (f : Frame) (t : Timeout) (cb arg : Pointer) (d : Dev Hw) (e : Errno)
      → d.has_sent_out ≡ false
      → (transmit hal os f t cb arg d).0 ≡ err e
      → (transmit hal os f t cb arg d).1.has_sent_out ≡ false
  unfolding transmit
  transmit-err laws f t cb arg d e u h =
      let p = put_callback hal os cb arg (os.lock_tx_mutex t d).1 in
      elim (Bool-cases (hal.transmit_via_txbuf (convert_frame hal f) p.hw).0) [
        | inl done ↦ cc (rw done at h)
        | inr failed ↦ rw failed (laws.lock_tx_mutex t d u)
      ]

  send_ready-err :
      (laws : StaysUnsent) (f : Frame) (t : Timeout) (cb arg : Pointer) (d : Dev Hw) (e : Errno)
      → (send_ready hal os f t cb arg d).0 ≡ err e
      → (send_ready hal os f t cb arg d).1.has_sent_out ≡ false
  unfolding send_ready
  send_ready-err laws f t cb arg d e h =
      let c : Dev Hw = record d { has_sent_out = false } in
      elim (Bool-cases (is_bus_off (get_state hal c))) [
        | inl b ↦ rw b
        | inr b ↦ elim (Bool-cases (os.take_tx_sem t c).0) [
          | inl g ↦
              rw (b, g)
                (transmit-err laws f t cb arg (os.take_tx_sem t c).1 e (laws.take_tx_sem t c refl)
                  (rw (b, g) at h))
          | inr g ↦ rw (b, g) (laws.take_tx_sem t c refl)
        ]
      ]

  pub send-ready :
      (fd : Bool) (fuel : ℕ) (f : Frame) (t : Timeout) (cb arg : Pointer) (d : Dev Hw)
      → d.has_sent_out ≡ true
      → d.drv.started ≡ true
      → validate_send hal fd d.drv f ≡ success
      → send hal os fd (suc fuel) f t cb arg d ≡ some (send_ready hal os f t cb arg d)
  unfolding send wait_sent
  send-ready fd fuel f t cb arg d sent up valid = simp (valid, up, sent)

  -- A send on a running controller that fails once the frame has passed the checks, because the bus
  -- is off, the semaphore is not had or the controller refuses the frame, leaves the flag reset:
  -- where nothing else sets it, every later send of a frame that passes the checks turns in its
  -- empty loop for ever.
  pub send-stuck :
      (fd : Bool) (fuel : ℕ) (f g : Frame) (t u : Timeout) (cb arg cb' arg' : Pointer)
      (d d' : Dev Hw) (e : Errno)
      → StaysUnsent
      → d.has_sent_out ≡ true
      → d.drv.started ≡ true
      → validate_send hal fd d.drv f ≡ success
      → send hal os fd (suc fuel) f t cb arg d ≡ some (err e, d')
      → validate_send hal fd d'.drv g ≡ success
      → d'.drv.started ≡ true
      → (n : ℕ) → send hal os fd n g u cb' arg' d' ≡ none
  unfolding send
  send-stuck fd fuel f g t u cb arg cb' arg' d d' e laws sent up valid run valid' up' n =
      let r : Path (Option (Status × Dev Hw)) (some (send_ready hal os f t cb arg d))
          (some (err e, d')) =
        sym (send-ready fd fuel f t cb arg d sent up valid) ∙ run in
      let unsent : d'.has_sent_out ≡ false =
        let p : send_ready hal os f t cb arg d ≡ (err e, d') = cc in
        rw p at (send_ready-err laws f t cb arg d e (ap (λ x. x.0) p)) in
      simp (valid', up', wait_sent-none laws n d' unsent)
