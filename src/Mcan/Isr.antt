-- ===== src/Mcan/Isr.antt =====
-- The interrupt handler of drivers/can/mcan_hpmicro.c: `hpm_mcan_isr`, `hpm_mcan_tc_event_handler`
-- and `hpm_mcan_state_change_handler`.
pub mod Complete
use hpm_support.Prelude.{ℕ, zero, suc, ◌+◌, Bool, true, none, some, ◌∷◌, if◌then◌else◌}
use hpm_support.Can.Types.{Pointer, CanState, ErrCnt, tx_done, state_changed}
use hpm_support.Mcan.Types.{Dev}
use hpm_support.Mcan.Hal.{Hal, Os, put_tx_sem, put_tx_fin_sem}
use hpm_support.Mcan.State.{has_flag, get_state, get_err_cnt}
use hpm_support.Mcan.Rx.{get_message_from_rxfifo, get_message_from_rxbuf}

abbrev pub call_state_change :
    {Hw : Type 0} → Pointer → CanState → ErrCnt → Pointer → Dev Hw → Dev Hw
call_state_change none st n arg d = d
call_state_change (some cb) st n arg d = record d { calls = state_changed cb st n arg ∷ d.calls }

module _ {Hw : Type 0} (hal : Hal Hw) where
  -- `hpm_mcan_state_change_handler`
  unfoldable pub state_change_handler : Dev Hw → Dev Hw
  state_change_handler d =
      call_state_change d.drv.state_change_cb (get_state hal d) (get_err_cnt hal d)
        d.drv.state_change_cb_data d

  -- The loop over the receive buffers: `n` are left, `i` is the next.
  unfoldable pub read_rxbufs : ℕ → ℕ → Dev Hw → Dev Hw
  read_rxbufs zero i d = d
  read_rxbufs (suc n) i d =
      let r = get_message_from_rxbuf hal i d in
      read_rxbufs n (i + 1) (
        if hal.rxbuf_available i d.hw
        then record r { hw = hal.clear_rxbuf_available i r.hw }
        else d)

  -- The receive parts of `hpm_mcan_isr`, on the flags read at its start.
  unfoldable pub handle_receive : ℕ → Dev Hw → Dev Hw
  unfolding read_rxbufs
  handle_receive flags d =
      let a =
        if has_flag flags hal.int_rxfifo0_new_msg then get_message_from_rxfifo hal 0 d else d in
      let b =
        if has_flag flags hal.int_rxfifo1_new_msg then get_message_from_rxfifo hal 1 a else a in
      if has_flag flags hal.int_msg_store_to_rxbuf then read_rxbufs hal.rxbuf_size 0 b else b

module _ {Hw : Type 0} (hal : Hal Hw) (os : Os Hw) where
  -- The end of `hpm_mcan_tc_event_handler`: wake the sender, or call its callback.
  abbrev pub complete : Pointer → Pointer → Dev Hw → Dev Hw
  complete none arg d = put_tx_fin_sem (os.sem_give d.drv.tx_fin_sem) d
  complete (some cb) arg d = record d { calls = tx_done cb arg ∷ d.calls }

  unfoldable pub tc_event_handler : Dev Hw → Dev Hw
  tc_event_handler d =
      complete d.drv.tx_fin_cb d.drv.tx_fin_cb_arg (put_tx_sem (os.sem_give d.drv.tx_sem) d)

  -- The transmit part of `hpm_mcan_isr`.
  unfoldable pub handle_transmit : ℕ → Dev Hw → Dev Hw
  unfolding tc_event_handler
  handle_transmit flags d =
      if has_flag flags hal.event_transmit
      then tc_event_handler (record d { has_sent_out = true })
      else d

  -- `hpm_mcan_isr`
  unfoldable pub isr : Dev Hw → Dev Hw
  unfolding handle_receive handle_transmit state_change_handler
  isr d =
      let flags = hal.interrupt_flags d.hw in
      let t = handle_transmit flags (handle_receive hal flags d) in
      let e = if has_flag flags hal.event_error then state_change_handler hal t else t in
      record e { hw = hal.clear_interrupt_flags flags e.hw }
