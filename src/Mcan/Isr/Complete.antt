-- ===== src/Mcan/Isr/Complete.antt =====
-- A frame from `hpm_mcan_send` to `hpm_mcan_tc_event_handler`.
use hpm_support.Prelude.{
  ℕ, suc, ◌≤◌, ◌<◌, ◌≡◌, ◌∙◌, refl, ap, Bool, true, false, none, some, ◌∷◌, arith,
}
use hpm_support.Errno.{success}
use hpm_support.Zephyr.{Timeout, forever}
use hpm_support.Can.Types.{Frame, Pointer, tx_done}
use hpm_support.Can.Hal.{taken, locked}
use hpm_support.Can.State.{is_bus_off}
use hpm_support.Mcan.Types.{Dev}
use hpm_support.Mcan.Hal.{Hal, Os, OsLaws, put_tx_sem}
use hpm_support.Mcan.State.{has_flag, get_state}
use hpm_support.Mcan.Tx.{validate_send, transmit, send_ready, send, convert_frame, await_completion}
use hpm_support.Mcan.Tx.Stuck.{send-ready}
use hpm_support.Mcan.Isr.{tc_event_handler, handle_transmit}

module _ {Hw : Type 0} (hal : Hal Hw) (os : Os Hw) (laws : OsLaws os) where
  -- A frame that nothing stands in the way of: the last one has been sent out, the controller runs
  -- and is not bus-off, the locks are to be had and the controller takes the frame.
  pub record CanSend (fd : Bool) (f : Frame) (d : Dev Hw) : Type 0 where
    pub sent : d.has_sent_out ≡ true
    pub started : d.drv.started ≡ true
    pub valid : validate_send hal fd d.drv f ≡ success
    pub on_bus : is_bus_off (get_state hal (record d { has_sent_out = false })) ≡ false
    pub sem : 0 < d.drv.tx_sem.count
    pub sem_limit : d.drv.tx_sem.count ≤ d.drv.tx_sem.limit
    pub mutex : d.drv.tx_mutex.lock_count ≡ 0
    pub taken_up : (hal.transmit_via_txbuf (convert_frame hal f) d.hw).0 ≡ true

  -- The device with the frame handed over.
  abbrev pub handed_over : Frame → Pointer → Pointer → Dev Hw → Dev Hw
  handed_over f cb arg d = record d {
    drv = record (d.drv) {
      tx_sem = taken d.drv.tx_sem;
      tx_mutex = os.mutex_unlock (locked d.drv.tx_mutex);
      tx_fin_cb = cb;
      tx_fin_cb_arg = arg;
    };
    has_sent_out = false;
    hw = (hal.transmit_via_txbuf (convert_frame hal f) d.hw).1;
  }

  send-CanSend :
      (fd : Bool) (fuel : ℕ) (f : Frame) (t : Timeout) (cb arg : Pointer) (d : Dev Hw)
      → CanSend fd f d
      → send hal os fd (suc fuel) f t cb arg d
        ≡ some (success, await_completion hal os cb (handed_over f cb arg d))
  unfolding send_ready transmit
  send-CanSend fd fuel f t cb arg d v =
      send-ready hal os fd fuel f t cb arg d v.sent v.started v.valid
      ∙ rw
          (
            v.on_bus,
            laws.take_tx_sem_lem t (record d { has_sent_out = false }) v.sem,
            laws.lock_tx_mutex_lem t
                (put_tx_sem (taken d.drv.tx_sem) (record d { has_sent_out = false })) v.mutex,
            v.taken_up,
          )
          refl

  -- Such a frame with a callback is handed over at once; when the interrupt then reports the
  -- transmission, it calls that callback once, with its argument, and the transmitter is free again:
  -- the flag is set, the semaphore has its units and the mutex is free.
  pub send-handle_transmit :
      (fd : Bool) (fuel : ℕ) (f : Frame) (t : Timeout) (cb flags : ℕ) (arg : Pointer) (d : Dev Hw)
      → CanSend fd f d
      → has_flag flags hal.event_transmit ≡ true
      → (d' : Dev Hw) × (send hal os fd (suc fuel) f t (some cb) arg d ≡ some (success, d'))
        × (let r = handle_transmit hal os flags d' in
            (r.calls ≡ tx_done cb arg ∷ d.calls)
            × (r.has_sent_out ≡ true)
            × (r.drv.tx_sem.count ≡ d.drv.tx_sem.count)
            × (r.drv.tx_mutex.lock_count ≡ 0))
  unfolding handle_transmit tc_event_handler
  send-handle_transmit fd fuel f t cb flags arg d v e = (
    handed_over f (some cb) arg d,
    send-CanSend fd fuel f t (some cb) arg d v,
    rw e (
      refl,
      refl,
      omega (arith, v.sem, v.sem_limit, ap (λ s. s.count) (laws.sem_give_lem (taken d.drv.tx_sem))),
      omega
          (arith, v.mutex, ap (λ m. m.lock_count) (laws.mutex_unlock_lem (locked d.drv.tx_mutex))),
    ),
  )

  -- Such a frame with no callback, while the semaphore of the completion has a unit, as the
  -- initialisation leaves it: the call returns 0 without waiting, before the frame is sent out.
  pub send_early :
      (fd : Bool) (fuel : ℕ) (f : Frame) (t : Timeout) (arg : Pointer) (d : Dev Hw)
      → CanSend fd f d
      → 0 < d.drv.tx_fin_sem.count
      → (d' : Dev Hw) × (send hal os fd (suc fuel) f t none arg d ≡ some (success, d'))
        × (d'.has_sent_out ≡ false)
        × (d'.hw ≡ (hal.transmit_via_txbuf (convert_frame hal f) d.hw).1)
  send_early fd fuel f t arg d v h =
      let x = handed_over f none arg d in
      let e = laws.take_tx_fin_sem_lem forever x h in
      (
        (os.take_tx_fin_sem forever x).1,
        send-CanSend fd fuel f t none arg d v,
        ap (λ r. r.1.has_sent_out) e,
        ap (λ r. r.1.hw) e,
      )
