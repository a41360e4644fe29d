-- ===== src/Mcan/Rx.antt =====
-- Reception in drivers/can/mcan_hpmicro.c: `hpm_mcan_get_message_from_rxbuf` and
-- `hpm_mcan_get_message_from_rxfifo`, which differ in how they read the message.
pub mod Remote
use mathlib.Core.Bool.{xor}
use hpm_support.Prelude.{
  ℕ, Bool, false, ◌||◌, Option, none, some, List, ◌∷◌, if◌then◌else◌, get_or, replicate,
}
use hpm_support.Can.Types.{Frame, Pointer, rx_done}
use hpm_support.Can.Rx.{copy_bytes}
use hpm_support.Mcan.Types.{RxMessage, Table, Dev}
use hpm_support.Mcan.Hal.{Hal}
use hpm_support.Mcan.Filter.{get_first_filter_index}
use hpm_support.Mcan.State.{has_flag}

-- `if (cb != NULL) cb(dev, &frame, cb_arg)`
abbrev pub call_rx : {Hw : Type 0} → Pointer → Frame → Pointer → Dev Hw → Dev Hw
call_rx none frame arg d = d
call_rx (some cb) frame arg d = record d { calls = rx_done cb frame arg ∷ d.calls }

module _ {Hw : Type 0} (hal : Hal Hw) where
  -- The frame that is built from a message.
  unfoldable pub to_frame : RxMessage → Frame
  unfolding copy_bytes
  to_frame m = record {
    id = if m.use_ext_id then m.ext_id else m.std_id;
    dlc = m.dlc;
    flags = record {
      ide = m.use_ext_id;
      rtr = m.rtr;
      fdf = m.canfd_frame;
      brs = m.bitrate_switch;
      esi = false;
    };
    payload = copy_bytes (hal.dlc_to_bytes m.dlc) 0 m.payload (replicate hal.max_dlen 0);
  }

  -- Whether the RTR bit of a frame does not match the words of filter `i`.
  abbrev pub is_dropped : ℕ → Bool → Dev Hw → Bool
  is_dropped i rtr d =
      xor (has_flag d.drv.filter_rtr_mask (hal.shift_one i)) rtr
      || xor (has_flag d.drv.filter_rtr (hal.shift_one i)) rtr

  -- The handling of the receive callback.
  unfoldable pub dispatch : Option ℕ → RxMessage → Dev Hw → Dev Hw
  unfolding to_frame
  dispatch none m d = d
  dispatch (some i) m d =
      let t = if m.use_ext_id then d.drv.ext else d.drv.std in
      if is_dropped i m.rtr d
      then d
      else call_rx (get_or t.rx_cb i none) (to_frame m) (get_or t.rx_cb_arg i none) d

  -- `hpm_mcan_get_message_from_rxfifo`
  unfoldable pub get_message_from_rxfifo : ℕ → Dev Hw → Dev Hw
  unfolding dispatch
  get_message_from_rxfifo fifo d =
      let (m, hw') = hal.read_rxfifo fifo d.hw in
      dispatch (get_first_filter_index m d.drv) m (record d { hw = hw' })

  -- `hpm_mcan_get_message_from_rxbuf`
  unfoldable pub get_message_from_rxbuf : ℕ → Dev Hw → Dev Hw
  unfolding dispatch
  get_message_from_rxbuf index d =
      let (m, hw') = hal.read_rxbuf index d.hw in
      dispatch (get_first_filter_index m d.drv) m (record d { hw = hw' })
