-- ===== src/Can/Isr/Complete.antt =====
-- The end of a transmission: `hpm_can_tc_event_handler` after `hpm_can_send`.
use hpm_support.Prelude.{
  ℕ, ◌<◌, ◌≡◌, ◌∙◌, refl, sym, ap, Bool, true, none, some, List, ◌∷◌, arith, length, ◌≤◌,
}
use hpm_support.Errno.{success}
use hpm_support.Zephyr.{Timeout, forever}
use hpm_support.Can.Types.{Frame, Pointer, CanData, Dev, tx_done}
use hpm_support.Can.Hal.{Hal, Os, OsLaws, sent, taken}
use hpm_support.Can.Tx.{
  validate_send, validate_all, send_batch, check_bus, send_claimed, finish_send, send,
  await_completion,
}
use hpm_support.Can.Tx.Idle.{
  IsIdle, none_left, claim_tx-IsIdle, in_flight, in_flight_lem, sem_give-none_left,
}
use hpm_support.Can.Tx.Batch.{send_batch-sent}
use hpm_support.Can.Tx.Send.{answer, send-sent}
use hpm_support.Can.Isr.{tc_event_handler}

module _ {Hw : Type 0} (hal : Hal Hw) (os : Os Hw) (laws : OsLaws os) (fd : Bool) where
  at_rest :
      (s : CanData)
      → IsIdle s
      → record s { tx_sem = os.sem_give none_left; tx_fin_cb = none; tx_fin_cb_arg = none } ≡ s
  at_rest s v = λ i. record s {
    tx_sem = (sem_give-none_left os laws ∙ sym v.tx_sem) i;
    tx_fin_cb = sym v.callback i;
    tx_fin_cb_arg = sym v.argument i;
  }

  -- The interrupt that completes a frame sent with a callback calls that callback once, with its
  -- argument, and brings the driver's data back to what it was before the call of `hpm_can_send`.
  pub send_complete :
      (f : Frame) (t : Timeout) (cb : ℕ) (arg : Pointer) (d : Dev Hw)
      → IsIdle d.drv
      → validate_send hal fd d.drv f ≡ success
      → check_bus hal os d ≡ success
      → (answer hal f d).0 ≡ sent
      → tc_event_handler hal os (send hal os fd f t (some cb) arg d).1
        ≡ record d { hw = (answer hal f d).1; calls = tx_done cb arg ∷ d.calls }
  unfolding tc_event_handler
  send_complete f t cb arg d v valid up s =
      rw (send-sent hal os laws fd f t cb arg d v valid up s) (
        ap (λ x. record d { drv = x; hw = (answer hal f d).1; calls = tx_done cb arg ∷ d.calls })
          (at_rest d.drv v))

  -- The interrupt that completes a batch calls the batch's callback once, not once for each frame,
  -- and brings the driver's data back to what it was.
  pub send_batch_complete :
      (fs : List Frame) (t : Timeout) (cb : ℕ) (arg : Pointer) (d : Dev Hw)
      → 0 < length fs
      → length fs ≤ 4
      → IsIdle d.drv
      → validate_all hal fd d.drv fs ≡ success
      → check_bus hal os d ≡ success
      → hal.stb_empty d.hw ≡ true
      → let d' = tc_event_handler hal os (send_batch hal os fd (some fs) t (some cb) arg d).1 in
        (d'.drv ≡ d.drv) × (d'.calls ≡ tx_done cb arg ∷ d.calls)
  unfolding tc_event_handler
  send_batch_complete fs t cb arg d lo hi v valid up empty =
      rw (send_batch-sent hal os laws fd fs t cb arg d lo hi v valid up empty)
        (at_rest d.drv v, refl)

  -- The driver's data after the completion of a frame that a thread waits for, once it has taken
  -- the semaphore that it waited for.
  woken :
      (s : CanData)
      → IsIdle s
      → record s {
        tx_sem = os.sem_give none_left;
        tx_fin_sem = taken (os.sem_give s.tx_fin_sem);
        tx_fin_cb = none;
        tx_fin_cb_arg = none;
      }
        ≡ s
  woken s v = λ i. record s {
    tx_sem = (sem_give-none_left os laws ∙ sym v.tx_sem) i;
    tx_fin_sem =
        (ap (λ x. taken (os.sem_give x)) v.tx_fin_sem
            ∙ ap taken (sem_give-none_left os laws)
            ∙ sym v.tx_fin_sem)
          i;
    tx_fin_cb = sym v.callback i;
    tx_fin_cb_arg = sym v.argument i;
  }

  await_lem :
      (arg : Pointer) (d : Dev Hw) (hw' : Hw)
      → IsIdle d.drv
      → let y = record d { drv = in_flight none arg d.drv; hw = hw' } in
        os.take_tx_fin_sem forever y ≡ os.take_tx_fin_sem forever (tc_event_handler hal os y)
        → (os.take_tx_fin_sem forever y).1 ≡ record d { hw = hw' }
  unfolding tc_event_handler
  await_lem arg d hw' v wakes =
      let y : Dev Hw = record d { drv = in_flight none arg d.drv; hw = hw' } in
      let given : (os.sem_give d.drv.tx_fin_sem).count ≡ 1 =
        ap (λ x. (os.sem_give x).count) v.tx_fin_sem
        ∙ ap (λ x. x.count) (sem_give-none_left os laws) in
      ap (λ r. r.1) wakes
      ∙ ap (λ r. r.1) (laws.take_tx_fin_sem_lem forever (tc_event_handler hal os y) (omega arith))
      ∙ ap (λ s. record d { drv = s; hw = hw' }) (woken d.drv v)

  -- If a thread that waits for the completion lets the completion's handler run, then a call of
  -- `hpm_can_send` with no callback returns 0 for a valid frame that the controller takes on a
  -- running bus, with the driver's data as before and no user function called.
  pub send-waits :
      (f : Frame) (t : Timeout) (arg : Pointer) (d : Dev Hw)
      → ((x : Dev Hw)
          → x.drv.tx_fin_cb ≡ none
          → x.drv.tx_fin_sem ≡ none_left
          → os.take_tx_fin_sem forever x ≡ os.take_tx_fin_sem forever (tc_event_handler hal os x))
      → IsIdle d.drv
      → validate_send hal fd d.drv f ≡ success
      → check_bus hal os d ≡ success
      → (answer hal f d).0 ≡ sent
      → send hal os fd f t none arg d ≡ (success, record d { hw = (answer hal f d).1 })
  unfolding send send_claimed finish_send await_completion
  send-waits f t arg d wakes v valid up s =
      rw (claim_tx-IsIdle os laws hal t d v, valid, up, s)
        (ap (λ x. (success, x))
          (ap (λ x. (os.take_tx_fin_sem forever (record d { drv = x; hw = (answer hal f d).1 })).1)
              (in_flight_lem os laws d.drv none arg v)
            ∙ await_lem arg d (answer hal f d).1 v (wakes _ refl v.tx_fin_sem)))
