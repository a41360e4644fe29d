-- ===== src/Can/Tx.antt =====
-- Transmission in drivers/can/can_hpmicro.c: `convert_can_frame_to_can_frame`,
-- `hpm_can_fill_tx_buffer`, `hpm_can_validate_tx_frame`, `hpm_can_send_batch` and `hpm_can_send`.
pub mod Idle
pub mod Send
pub mod Validate
pub mod Batch
use hpm_support.Prelude.{
  ℕ, zero, suc, ◌+◌, ◌-◌, ◌/◌, ◌%◌, Bool, true, false, not, ◌&&◌, ◌||◌, Option, none, some, List,
  [], ◌∷◌, ltb, ◌==◌, if◌then◌else◌, length, replicate,
}
use hpm_support.Errno.{
  Status, success, on_ok, both, ok, err, einval, enotsup, enetdown, enetunreach, eagain, eio,
}
use hpm_support.Zephyr.{Timeout, forever}
use hpm_support.Can.Types.{Frame, TxBuf, Pointer, CanData, Dev}
use hpm_support.Can.Hal.{Hal, Os, TxStatus, sent, tx_fifo_full, failed, put_tx_sem, put_tx_mutex}
use hpm_support.Can.Rx.{copy_bytes}
use hpm_support.Can.State.{is_bus_off, read_state}

module _ {Hw : Type 0} (hal : Hal Hw) where
  -- `convert_can_frame_to_can_frame`; `old` is the payload area before the call. The identifier goes
  -- to a field of 29 bits and the length code to one of 4.
  unfoldable pub convert_frame : Frame → List ℕ → TxBuf
  unfolding copy_bytes
  convert_frame f old = record {
    id = f.id % 536870912;
    dlc = f.dlc % 16;
    bitrate_switch = f.flags.brs;
    remote_frame = f.flags.rtr;
    canfd_frame = f.flags.fdf;
    extend_id = f.flags.ide;
    payload = copy_bytes (hal.dlc_to_bytes (f.dlc % 16)) 0 f.payload old;
  }

  -- The number of payload words that `hpm_can_fill_tx_buffer` copies.
  unfoldable pub copy_words : TxBuf → ℕ
  copy_words m = (hal.dlc_to_bytes m.dlc + 4 - 1) / 4

  -- Its loop: `n` words are left, `i` is the next.
  unfoldable pub fill_words : ℕ → ℕ → TxBuf → Hw → Hw
  fill_words zero i m hw = hw
  fill_words (suc n) i m hw =
      fill_words n (i + 1) m (hal.write_tbuf (2 + i) (hal.tx_word m (2 + i)) hw)

  unfoldable pub fill_tx_buffer : TxBuf → Hw → Hw
  unfolding copy_words fill_words
  fill_tx_buffer m hw =
      fill_words (copy_words m) 0 m
        (hal.write_tbuf 1 (hal.tx_word m 1) (hal.write_tbuf 0 (hal.tx_word m 0) hw))

  -- The checks of a frame for a controller that is not in FD mode, in both senders.
  abbrev pub validate_classic : Frame → Status
  validate_classic f =
      if f.flags.fdf || f.flags.brs || f.flags.esi
      then err enotsup
      else if ltb hal.max_dlc f.dlc
      then err einval
      else success

  module _ (fd : Bool) where
    -- `hpm_can_validate_tx_frame`; `fd` is `CONFIG_CAN_FD_MODE`, and `none` is a NULL frame.
    unfoldable pub validate_tx_frame : CanData → Option Frame → Status
    validate_tx_frame s none = err einval
    validate_tx_frame s (some f) =
        if fd && s.config.enable_canfd
        then if f.flags.esi && not f.flags.fdf
          then err enotsup
          else if f.flags.rtr
          then err enotsup
          else if ltb hal.max_dlc_fd f.dlc
          then err einval
          else success
        else validate_classic f

    -- The checks at the head of `hpm_can_send`.
    unfoldable pub validate_send : CanData → Frame → Status
    validate_send s f =
        if fd && s.config.enable_canfd
        then if f.flags.esi && not f.flags.brs
          then err enotsup
          else if f.flags.rtr
          then err enotsup
          else if ltb hal.max_dlc_fd f.dlc
          then err einval
          else success
        else validate_classic f

    -- The loop of `hpm_can_send_batch` over the frames: the first error, if any.
    unfoldable pub validate_all : CanData → List Frame → Status
    validate_all s [] = success
    validate_all s (f ∷ fs) = both (validate_tx_frame s (some f)) (validate_all s fs)

module _ {Hw : Type 0} (hal : Hal Hw) (os : Os Hw) where
  abbrev pub give_tx_sem : Dev Hw → Dev Hw
  give_tx_sem d = put_tx_sem (os.sem_give d.drv.tx_sem) d

  abbrev pub unlock_tx : Dev Hw → Dev Hw
  unlock_tx d = put_tx_mutex (os.mutex_unlock d.drv.tx_mutex) d

  -- `started` and the bus state, as both senders test them.
  unfoldable pub check_bus : Dev Hw → Status
  check_bus d =
      if d.drv.started
      then if is_bus_off (read_state hal d) then err enetunreach else success
      else err enetdown

  -- `tx_sem`, then `tx_mutex`; the first is given back where the second is not had.
  unfoldable pub claim_tx : Timeout → Dev Hw → Bool × Dev Hw
  claim_tx t d =
      let (a, d1) = os.take_tx_sem t d in
      let (b, d2) = os.lock_tx_mutex t d1 in
      if a then (if b then (true, d2) else (false, give_tx_sem d2)) else (false, d1)

  abbrev pub put_callback : Pointer → Pointer → Dev Hw → Dev Hw
  put_callback cb arg d = record d { drv = record (d.drv) { tx_fin_cb = cb; tx_fin_cb_arg = arg } }

  -- With no callback the caller waits for the completion.
  unfoldable pub await_completion : Pointer → Dev Hw → Dev Hw
  await_completion none d = (os.take_tx_fin_sem forever d).1
  await_completion (some cb) d = d

  -- The loop that loads the frames of a batch.
  unfoldable pub load_frames : List Frame → Hw → Hw
  unfolding fill_tx_buffer
  load_frames [] hw = hw
  load_frames (f ∷ fs) hw =
      load_frames fs (
        hal.switch_to_next_tx_buffer (fill_tx_buffer hal (convert_frame hal f (replicate 64 0)) hw))

  -- `hpm_can_send_batch` from the claimed transmitter on.
  unfoldable pub batch_claimed : List Frame → Pointer → Pointer → Dev Hw → Status × Dev Hw
  batch_claimed fs cb arg d =
      let p = put_callback cb arg d in
      let hw' = hal.start_all_message_transmit (load_frames fs (hal.select_tx_buffer true p.hw)) in
      if hal.stb_empty d.hw
      then (success, await_completion cb (unlock_tx (record p { hw = hw' })))
      else (err eagain, give_tx_sem (unlock_tx d))

  module _ (fd : Bool) where
    -- `hpm_can_send_batch`; `none` is a NULL `frames`, and `frame_count` is the list's length.
    unfoldable pub send_batch :
        Option (List Frame) → Timeout → Pointer → Pointer → Dev Hw → Status × Dev Hw
    send_batch none t cb arg d = (err einval, d)
    send_batch (some fs) t cb arg d =
        let (got, c) = claim_tx t d in
        let run = if got then batch_claimed fs cb arg c else (err eagain, c) in
        if length fs == 0 || ltb 4 (length fs)
        then (err einval, d)
        else on_ok (validate_all hal fd d.drv fs) (on_ok (check_bus d) run d) d

    -- `hpm_can_send` once the controller has answered: `q` holds both locks and the callback.
    unfoldable pub finish_send : TxStatus → Pointer → Dev Hw → Status × Dev Hw
    unfolding await_completion
    finish_send sent cb q = (success, await_completion cb (unlock_tx q))
    finish_send tx_fifo_full cb q = (err eagain, give_tx_sem (unlock_tx (put_callback none none q)))
    finish_send failed cb q = (err eio, give_tx_sem (unlock_tx (put_callback none none q)))

    -- `hpm_can_send` from the claimed transmitter on.
    unfoldable pub send_claimed : Frame → List ℕ → Pointer → Pointer → Dev Hw → Status × Dev Hw
    send_claimed f junk cb arg d =
        let p = put_callback cb arg d in
        let (status, hw') = hal.send_message_nonblocking (convert_frame hal f junk) p.hw in
        finish_send status cb (record p { hw = hw' })

    -- `hpm_can_send`
    unfoldable pub send : Frame → Timeout → Pointer → Pointer → Dev Hw → Status × Dev Hw
    send f t cb arg d =
        let (got, c) = claim_tx t d in
        let junk = hal.uninit_payload d.hw in
        let run = if got then send_claimed f junk cb arg c else (err eagain, c) in
        on_ok (validate_send hal fd d.drv f) (on_ok (check_bus d) run d) d
