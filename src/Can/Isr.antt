-- ===== src/Can/Isr.antt =====
-- The interrupt handler of drivers/can/can_hpmicro.c: `hpm_can_isr`, `hpm_can_tc_event_handler` and
-- `hpm_can_state_change_handler`.
pub mod Complete
pub mod Drain
use mathlib.Core.Option
use hpm_support.Prelude.{ℕ, zero, suc, true, false, Option, none, some, ◌∷◌, if◌then◌else◌}
use hpm_support.Can.Types.{
  Pointer, tx_done, state_changed, TxRxFlags, ErrorFlags, CanState, ErrCnt, Dev,
}
use hpm_support.Can.Hal.{Hal, Os, put_tx_fin_sem}
use hpm_support.Can.State.{no_error_flag, read_state, get_err_cnt}
use hpm_support.Can.Rx.{get_message}
use hpm_support.Can.Tx.{put_callback, give_tx_sem}

abbrev pub no_event : TxRxFlags
no_event = record {
  receive = false;
  tx_primary_buf = false;
  tx_secondary_buf = false;
  error = false;
}

-- `if (cb != NULL) cb(dev, state, err_cnt, cb_data)`
abbrev pub call_state_change :
    {Hw : Type 0} → Pointer → CanState → ErrCnt → Pointer → Dev Hw → Dev Hw
call_state_change none st n arg d = d
call_state_change (some cb) st n arg d = record d { calls = state_changed cb st n arg ∷ d.calls }

module _ {Hw : Type 0} (hal : Hal Hw) where
  unfoldable pub state_change_handler : Dev Hw → Dev Hw
  unfolding read_state get_err_cnt
  state_change_handler d =
      call_state_change d.drv.state_change_cb (read_state hal d) (get_err_cnt hal d)
        d.drv.state_change_cb_data d

  -- The loop over the receive buffer; `none` means that the fuel ran out.
  unfoldable pub drain : ℕ → Dev Hw → Option (Dev Hw)
  unfolding get_message
  drain zero d = none
  drain (suc n) d =
      let rest = drain n (get_message hal d) in if hal.data_available d.hw then rest else some d

module _ {Hw : Type 0} (hal : Hal Hw) (os : Os Hw) where
  -- The end of `hpm_can_tc_event_handler`: wake the sender, or call its callback.
  abbrev pub complete : Pointer → Pointer → Dev Hw → Dev Hw
  complete none arg d = put_tx_fin_sem (os.sem_give d.drv.tx_fin_sem) d
  complete (some cb) arg d = record d { calls = tx_done cb arg ∷ d.calls }

  unfoldable pub tc_event_handler : Dev Hw → Dev Hw
  tc_event_handler d =
      complete d.drv.tx_fin_cb d.drv.tx_fin_cb_arg
        (give_tx_sem hal os (put_callback hal os none none d))

  -- `can_clear_tx_rx_flags`
  abbrev pub clear : TxRxFlags → Dev Hw → Dev Hw
  clear e d = record d { hw = hal.clear_tx_rx_flags e d.hw }

  -- The three transmit and error parts of `hpm_can_isr`, on the flags read at its start.
  unfoldable pub handle_primary : TxRxFlags → Dev Hw → Dev Hw
  unfolding tc_event_handler
  handle_primary e d =
      if e.tx_primary_buf
      then clear (record no_event { tx_primary_buf = true }) (tc_event_handler d)
      else d

  unfoldable pub handle_secondary : TxRxFlags → Dev Hw → Dev Hw
  unfolding tc_event_handler
  handle_secondary e d =
      if e.tx_secondary_buf
      then clear (record no_event { tx_secondary_buf = true }) (tc_event_handler d)
      else d

  unfoldable pub handle_error : TxRxFlags → Dev Hw → Dev Hw
  handle_error e d = if e.error then clear (record no_event { error = true }) d else d

  -- The receive part: the loop, then the flag.
  unfoldable pub handle_receive : ℕ → TxRxFlags → Dev Hw → Option (Dev Hw)
  handle_receive fuel e d =
      if e.receive
      then Option.map (clear (record no_event { receive = true })) (drain hal fuel d)
      else some d

  -- The parts of `hpm_can_isr` behind the receive part.
  unfoldable pub finish_isr : TxRxFlags → ErrorFlags → Dev Hw → Dev Hw
  unfolding handle_primary handle_secondary handle_error state_change_handler
  finish_isr e errs r =
      let t = handle_error e (handle_secondary e (handle_primary e r)) in
      let c = state_change_handler hal t in
      if no_error_flag errs then t else record c { hw = hal.clear_error_flags errs c.hw }

  -- `hpm_can_isr`; `none` means that the fuel of the receive loop ran out.
  unfoldable pub isr : ℕ → Dev Hw → Option (Dev Hw)
  unfolding handle_receive
  isr fuel d =
      Option.map (finish_isr (hal.tx_rx_flags d.hw) (hal.error_flags d.hw))
        (handle_receive fuel (hal.tx_rx_flags d.hw) d)
