-- ===== src/Mcan/Tx.antt =====
-- Transmission in drivers/can/mcan_hpmicro.c: `convert_can_frame_to_mcan_frame`, `hpm_mcan_send`.
pub mod Stuck
use mathlib.Core.Option
use hpm_support.Prelude.{
  ℕ, zero, suc, Bool, true, false, not, ◌&&◌, ◌||◌, Option, none, some, List, ltb, if◌then◌else◌,
  replicate,
}
use hpm_support.Errno.{
  Status, success, err, einval, enotsup, enetdown, enetunreach, eagain, eio, ok,
}
use hpm_support.Zephyr.{Timeout, forever}
use hpm_support.Can.Types.{Frame, Pointer}
use hpm_support.Can.Rx.{copy_bytes}
use hpm_support.Can.State.{is_bus_off}
use hpm_support.Mcan.Types.{TxFrame, McanData, Dev}
use hpm_support.Mcan.Hal.{Hal, Os, put_tx_mutex}
use hpm_support.Mcan.State.{get_state}

-- `return` of the error of a check, or the rest of the call.
abbrev pub after_check {ℓ} : {S : Type ℓ} → Status → Option (Status × S) → S → Option (Status × S)
after_check (ok u) rest s = rest
after_check (err e) rest s = some (err e, s)

module _ {Hw : Type 0} (hal : Hal Hw) where
  -- `convert_can_frame_to_mcan_frame` on a frame of zeros
  unfoldable pub convert_frame : Frame → TxFrame
  unfolding copy_bytes
  convert_frame f = record {
    std_id = if f.flags.ide then 0 else f.id;
    ext_id = if f.flags.ide then f.id else 0;
    use_ext_id = f.flags.ide;
    canfd_frame = f.flags.fdf;
    rtr = f.flags.rtr;
    bitrate_switch = f.flags.brs;
    dlc = f.dlc;
    payload = copy_bytes (hal.dlc_to_bytes f.dlc) 0 f.payload (replicate hal.max_dlen 0);
  }

  -- The checks at the head of `hpm_mcan_send`; `fd` is `CONFIG_CAN_FD_MODE`.
  unfoldable pub validate_send : Bool → McanData → Frame → Status
  validate_send fd s f =
      if fd && s.config.enable_canfd
      then if f.flags.esi && not f.flags.brs
        then err enotsup
        else if f.flags.rtr
        then err enotsup
        else if ltb hal.max_dlc_fd f.dlc
        then err einval
        else success
      else if f.flags.fdf || f.flags.brs || f.flags.esi
      then err enotsup
      else if ltb hal.max_dlc f.dlc
      then err einval
      else success

module _ {Hw : Type 0} (hal : Hal Hw) (os : Os Hw) where
  -- `while (!has_sent_out) { }`; `none` where it has not ended within the turns.
  unfoldable pub wait_sent : ℕ → Dev Hw → Option (Dev Hw)
  wait_sent zero d = none
  wait_sent (suc n) d =
      let rest = wait_sent n (os.spin d) in if d.has_sent_out then some d else rest

  -- With no callback the caller waits for the completion.
  abbrev pub await_completion : Pointer → Dev Hw → Dev Hw
  await_completion none d = (os.take_tx_fin_sem forever d).1
  await_completion (some cb) d = d

  abbrev pub put_callback : Pointer → Pointer → Dev Hw → Dev Hw
  put_callback cb arg d = record d { drv = record (d.drv) { tx_fin_cb = cb; tx_fin_cb_arg = arg } }

  -- From the taken semaphore on. The mutex is taken whether or not the wait for it succeeds, and an
  -- error keeps the semaphore, as the code does.
  unfoldable pub transmit : Frame → Timeout → Pointer → Pointer → Dev Hw → Status × Dev Hw
  transmit f t cb arg d =
      let p = put_callback cb arg (os.lock_tx_mutex t d).1 in
      let (done, hw') = hal.transmit_via_txbuf (convert_frame hal f) p.hw in
      let u = put_tx_mutex (os.mutex_unlock p.drv.tx_mutex) (record p { hw = hw' }) in
      if done then (success, await_completion cb u) else (err eio, u)

  -- From the flag on, once the last frame has been sent out.
  unfoldable pub send_ready : Frame → Timeout → Pointer → Pointer → Dev Hw → Status × Dev Hw
  unfolding transmit
  send_ready f t cb arg d =
      let c : Dev Hw = record d { has_sent_out = false } in
      let (got, c') = os.take_tx_sem t c in
      if is_bus_off (get_state hal c)
      then (err enetunreach, c)
      else if got
      then transmit f t cb arg c'
      else (err eagain, c')

  -- `hpm_mcan_send`; `none` where its empty loop has not ended within `fuel` turns.
  unfoldable pub send :
      Bool → ℕ → Frame → Timeout → Pointer → Pointer → Dev Hw → Option (Status × Dev Hw)
  unfolding wait_sent send_ready
  send fd fuel f t cb arg d =
      after_check (validate_send hal fd d.drv f)
        (if d.drv.started
          then Option.map (send_ready f t cb arg) (wait_sent fuel d)
          else some (err enetdown, d))
        d
