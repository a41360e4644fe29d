-- ===== src/Can/Tx/Send.antt =====
-- `hpm_can_send` from an idle transmitter: its errors, its success and the completion.
use hpm_support.Prelude.{ℕ, ◌≡◌, refl, ap, Bool, some, List}
use hpm_support.Errno.{Errno, Status, success, on_ok_ind, err, eagain}
use hpm_support.Zephyr.{Timeout, no_wait}
use hpm_support.Can.Types.{Frame, Pointer, Dev}
use hpm_support.Can.Hal.{Hal, Os, OsLaws, TxStatus, sent, tx_fifo_full, failed}
use hpm_support.Can.Tx.{
  claim_tx, validate_send, check_bus, finish_send, send_claimed, send, convert_frame, put_callback,
  await_completion,
}
use hpm_support.Can.Tx.Idle.{IsIdle, claimed, claim_tx-IsIdle, in_flight, restored, in_flight_lem}

module _ {Hw : Type 0} (hal : Hal Hw) where
  -- What the driver gives to the controller for a frame.
  abbrev pub answer : Frame → Dev Hw → TxStatus × Hw
  answer f d = hal.send_message_nonblocking (convert_frame hal f (hal.uninit_payload d.hw)) d.hw

module _ {Hw : Type 0} (hal : Hal Hw) (os : Os Hw) (laws : OsLaws os) (fd : Bool) where
  finish_send-err :
      (st : TxStatus) (cb arg : Pointer) (d : Dev Hw) (hw' : Hw) (e : Errno)
      → IsIdle d.drv
      → let (r, d') =
          finish_send hal os fd st cb
            (record (put_callback hal os cb arg (claimed d)) { hw = hw' }) in
        r ≡ err e → (d'.drv ≡ d.drv) × (d'.calls ≡ d.calls)
  unfolding finish_send
  finish_send-err sent cb arg d hw' e v h = cc
  finish_send-err tx_fifo_full cb arg d hw' e v h = (restored os laws d.drv v, refl)
  finish_send-err failed cb arg d hw' e v h = (restored os laws d.drv v, refl)

  send_claimed-err :
      (f : Frame) (junk : List ℕ) (cb arg : Pointer) (d : Dev Hw) (e : Errno)
      → IsIdle d.drv
      → let (r, d') = send_claimed hal os fd f junk cb arg (claimed d) in
        r ≡ err e → (d'.drv ≡ d.drv) × (d'.calls ≡ d.calls)
  unfolding send_claimed
  send_claimed-err f junk cb arg d e v =
      let (st, hw') = hal.send_message_nonblocking (convert_frame hal f junk) d.hw in
      finish_send-err st cb arg d hw' e v

  -- Every error of `hpm_can_send` from an idle transmitter leaves the driver's data as it was: the
  -- semaphore and the mutex are given back and the callback slot is empty again. No user function
  -- has been called.
  pub send-err :
      (f : Frame) (t : Timeout) (cb arg : Pointer) (d : Dev Hw) (e : Errno)
      → IsIdle d.drv
      → let (r, d') = send hal os fd f t cb arg d in
        r ≡ err e → (d'.drv ≡ d.drv) × (d'.calls ≡ d.calls)
  unfolding send
  send-err f t cb arg d e v =
      let P : Status × Dev Hw → Type 0 =
        λ p. p.0 ≡ err e → (p.1.drv ≡ d.drv) × (p.1.calls ≡ d.calls) in
      rw (claim_tx-IsIdle os laws hal t d v) (
        on_ok_ind P (validate_send hal fd d.drv f) _ d (λ e' h. (refl, refl))
          (on_ok_ind P (check_bus hal os d) _ d (λ e' h. (refl, refl))
            (send_claimed-err f (hal.uninit_payload d.hw) cb arg d e v)))

  -- A valid frame on a running bus that the controller takes is sent: with a callback the call
  -- returns 0 at once, the callback and its argument wait in the slot, the mutex is free, the
  -- semaphore is taken, and nothing else of the device has changed but the controller.
  pub send-sent :
      (f : Frame) (t : Timeout) (cb : ℕ) (arg : Pointer) (d : Dev Hw)
      → IsIdle d.drv
      → validate_send hal fd d.drv f ≡ success
      → check_bus hal os d ≡ success
      → (answer hal f d).0 ≡ sent
      → send hal os fd f t (some cb) arg d
        ≡ (success, record d { drv = in_flight (some cb) arg d.drv; hw = (answer hal f d).1 })
  unfolding send send_claimed finish_send await_completion
  send-sent f t cb arg d v valid up s =
      rw (claim_tx-IsIdle os laws hal t d v, valid, up, s)
        (ap (λ x. (success, record d { drv = x; hw = (answer hal f d).1 }))
          (in_flight_lem os laws d.drv (some cb) arg v))

  -- While a frame is on its way, a caller that does not wait gets -EAGAIN and changes nothing: the
  -- callback of the frame on its way is not overwritten.
  pub send_busy :
      (f : Frame) (cb arg : Pointer) (d : Dev Hw)
      → d.drv.tx_sem.count ≡ 0
      → validate_send hal fd d.drv f ≡ success
      → check_bus hal os d ≡ success
      → send hal os fd f no_wait cb arg d ≡ (err eagain, d)
  unfolding send claim_tx
  send_busy f cb arg d z valid up = rw (laws.take_tx_sem_busy d z, valid, up)
