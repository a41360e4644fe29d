-- ===== src/Can/Isr/Drain.antt =====
-- The receive loop of `hpm_can_isr`.
use mathlib.Core.Bool.{xor}
use hpm_support.Prelude.{
  ℕ, zero, suc, ◌<◌, ◌≡◌, ◌∙◌, refl, ap, Bool, true, false, Option, Option-cases, none, some, arith,
  ltb, ◌||◌, get_or, test_bit, lt→ltb, if◌then◌else◌, Bool-cases, inl, inr,
}
use hpm_support.Can.Types.{Frame, Pointer, Dev, TxRxFlags, ErrorFlags}
use hpm_support.Can.State.{no_error_flag}
use hpm_support.Can.Hal.{Hal, Os}
use hpm_support.Can.Rx.{call_rx, dispatch, get_message}
use hpm_support.Can.Isr.{
  clear, no_event, drain, tc_event_handler, state_change_handler, handle_primary, handle_secondary,
  handle_error, finish_isr, isr,
}

-- The receive buffer of the controller as a queue of a finite number of messages: it is not empty
-- while messages are pending, and a read takes one.
pub record RxQueue {Hw : Type 0} (hal : Hal Hw) : Type 0 where
  pub pending : Hw → ℕ
  pub available_lem : (hw : Hw) → hal.data_available hw ≡ ltb 0 (pending hw)
  pub read_lem : (hw : Hw) → 0 < pending hw → suc (pending (hal.read_message hw).1) ≡ pending hw

-- Clearing flags leaves the pending messages as they are.
pub record Keeps {Hw : Type 0} (hal : Hal Hw) (q : RxQueue hal) : Type 0 where
  pub clear_lem : (e : TxRxFlags) (hw : Hw) → q.pending (hal.clear_tx_rx_flags e hw) ≡ q.pending hw
  pub clear_error_lem :
      (e : ErrorFlags) (hw : Hw) → q.pending (hal.clear_error_flags e hw) ≡ q.pending hw

abbrev pub iterate : {S : Type 0} → ℕ → (S → S) → S → S
iterate zero f s = s
iterate (suc n) f s = iterate n f (f s)

module _ {Hw : Type 0} (hal : Hal Hw) (q : RxQueue hal) where
  hw-call_rx :
      (cb : Pointer) (f : Frame) (arg : Pointer) (d : Dev Hw) → (call_rx cb f arg d).hw ≡ d.hw
  hw-call_rx none f arg d = refl
  hw-call_rx (some cb) f arg d = refl

  hw-dispatch : (i : Option ℕ) (f : Frame) (d : Dev Hw) → (dispatch hal i f d).hw ≡ d.hw
  unfolding dispatch
  hw-dispatch none f d = refl
  hw-dispatch (some i) f d =
      let t =
        xor (test_bit d.drv.filter_rtr_mask i) f.flags.rtr
        || xor (test_bit d.drv.filter_rtr i) f.flags.rtr in
      elim (Bool-cases t) [
        | inl y ↦ rw y
        | inr n ↦ rw n (hw-call_rx (get_or d.drv.rx_cb i none) f (get_or d.drv.rx_cb_arg i none) d)
      ]

  -- A message is read once, whatever becomes of it.
  hw-get_message : (d : Dev Hw) → (get_message hal d).hw ≡ (hal.read_message d.hw).1
  unfolding get_message
  hw-get_message d = hw-dispatch _ _ _

  drain-iterate :
      (p fuel : ℕ) (d : Dev Hw)
      → q.pending d.hw ≡ p
      → p < fuel
      → drain hal fuel d ≡ some (iterate p (get_message hal) d)
  unfolding drain
  drain-iterate p zero d e h = absurd (omega arith)
  drain-iterate zero (suc fuel) d e h = rw (q.available_lem d.hw, e)
  drain-iterate (suc p) (suc fuel) d e h =
      rw (q.available_lem d.hw, lt→ltb 0 (q.pending d.hw) (omega arith))
        (drain-iterate p fuel (get_message hal d)
          (ap q.pending (hw-get_message d) ∙ omega (arith, q.read_lem d.hw)) (omega arith))

  -- With more fuel than messages are pending, the receive loop ends: it has handled each of the
  -- pending messages once, in order.
  pub drain-total :
      (fuel : ℕ) (d : Dev Hw)
      → q.pending d.hw < fuel
      → drain hal fuel d ≡ some (iterate (q.pending d.hw) (get_message hal) d)
  drain-total fuel d h = drain-iterate (q.pending d.hw) fuel d refl h

  -- The device behind the receive part.
  abbrev pub received : Os Hw → Dev Hw → Dev Hw
  received os d =
      if (hal.tx_rx_flags d.hw).receive
      then clear hal os (record no_event { receive = true })
          (iterate (q.pending d.hw) (get_message hal) d)
      else d

  isr-received :
      (os : Os Hw) (fuel : ℕ) (d : Dev Hw)
      → q.pending d.hw < fuel
      → isr hal os fuel d
        ≡ some (finish_isr hal os (hal.tx_rx_flags d.hw) (hal.error_flags d.hw) (received os d))
  unfolding isr
  isr-received os fuel d h = elim (Bool-cases (hal.tx_rx_flags d.hw).receive) [
    | inl t ↦ rw (t, drain-total fuel d h)
    | inr n ↦ rw n
  ]

  pending-iterate :
      (p : ℕ) (d : Dev Hw) → q.pending d.hw ≡ p → q.pending (iterate p (get_message hal) d).hw ≡ 0
  pending-iterate zero d e = e
  pending-iterate (suc p) d e =
      pending-iterate p (get_message hal d)
        (ap q.pending (hw-get_message d) ∙ omega (arith, e, q.read_lem d.hw (omega (arith, e))))

  module _ (os : Os Hw) (k : Keeps hal q) where
    hw-tc_event_handler : (d : Dev Hw) → (tc_event_handler hal os d).hw ≡ d.hw
    unfolding tc_event_handler
    hw-tc_event_handler d = elim (Option-cases d.drv.tx_fin_cb) [ inl n ↦ rw n | inr s ↦ rw s.1 ]

    hw-state_change_handler : (d : Dev Hw) → (state_change_handler hal d).hw ≡ d.hw
    unfolding state_change_handler
    hw-state_change_handler d = elim (Option-cases d.drv.state_change_cb) [
      | inl n ↦ rw n
      | inr s ↦ rw s.1
    ]

    pending-clear :
        (b : Bool) (e : TxRxFlags) (x d : Dev Hw)
        → x.hw ≡ d.hw
        → q.pending (if b then clear hal os e x else d).hw ≡ q.pending d.hw
    pending-clear true e x d h = k.clear_lem e x.hw ∙ ap q.pending h
    pending-clear false e x d h = refl

    pending-finish_isr :
        (e : TxRxFlags) (errs : ErrorFlags) (d : Dev Hw)
        → q.pending (finish_isr hal os e errs d).hw ≡ q.pending d.hw
    unfolding finish_isr handle_primary handle_secondary handle_error
    pending-finish_isr e errs d =
        let a = handle_primary hal os e d in
        let b = handle_secondary hal os e a in
        let t = handle_error hal os e b in
        let p : q.pending t.hw ≡ q.pending d.hw =
          pending-clear e.error (record no_event { error = true }) b b refl
          ∙ pending-clear e.tx_secondary_buf (record no_event { tx_secondary_buf = true })
              (tc_event_handler hal os a) a (hw-tc_event_handler a)
          ∙ pending-clear e.tx_primary_buf (record no_event { tx_primary_buf = true })
              (tc_event_handler hal os d) d (hw-tc_event_handler d) in
        elim (Bool-cases (no_error_flag errs)) [
          | inl y ↦ rw y p
          | inr n ↦ rw n (
              k.clear_error_lem errs (state_change_handler hal t).hw
              ∙ ap q.pending (hw-state_change_handler t)
              ∙ p)
        ]

    -- With more fuel than messages are pending, and flags whose clearing leaves the messages, the
    -- interrupt handler returns. If the receive flag was set, `get_message` has run once for each
    -- pending message and none is left; if it was not set, it has not run and as many are pending as
    -- before. Then come the completions and the errors of the flags that were read at the start.
    pub isr-total :
        (fuel : ℕ) (d : Dev Hw)
        → q.pending d.hw < fuel
        → let e = hal.tx_rx_flags d.hw in
          (d' : Dev Hw) × (isr hal os fuel d ≡ some d')
          × (d' ≡ finish_isr hal os e (hal.error_flags d.hw) (received os d))
          × (q.pending d'.hw ≡ (if e.receive then 0 else q.pending d.hw))
    isr-total fuel d h =
        let e = hal.tx_rx_flags d.hw in
        let d' = finish_isr hal os e (hal.error_flags d.hw) (received os d) in
        let p = pending-finish_isr e (hal.error_flags d.hw) (received os d) in
        (
          d',
          isr-received os fuel d h,
          refl,
          elim (Bool-cases e.receive) [
            | inl y ↦
                let it = iterate (q.pending d.hw) (get_message hal) d in
                p
                ∙ rw y (
                    k.clear_lem (record no_event { receive = true }) it.hw
                    ∙ pending-iterate (q.pending d.hw) d refl)
            | inr n ↦ p ∙ rw n refl
          ],
        )
