-- ===== src/Can/Rx.antt =====
-- Reception in drivers/can/can_hpmicro.c: `hpm_can_get_message`.
pub mod Copy
pub mod Deliver
use mathlib.Core.Bool.{xor}
use hpm_support.Prelude.{
  ℕ, zero, suc, ◌+◌, Bool, ◌||◌, Option, none, some, List, ◌∷◌, if◌then◌else◌, get_or, set,
  test_bit,
}
use hpm_support.Can.Types.{Frame, RxBuf, Pointer, rx_done, Dev}
use hpm_support.Can.Hal.{Hal}
use hpm_support.Can.Filter.{get_first_filter_index}

-- `for (i = 0; i < n; i++) dst[i] = src[i]`, from `i` on with `n` rounds left.
unfoldable pub copy_bytes : ℕ → ℕ → List ℕ → List ℕ → List ℕ
copy_bytes zero i src dst = dst
copy_bytes (suc n) i src dst = copy_bytes n (i + 1) src (set dst i (get_or src i 0))

-- `if (cb != NULL) cb(dev, &frame, cb_arg)`
abbrev pub call_rx : {Hw : Type 0} → Pointer → Frame → Pointer → Dev Hw → Dev Hw
call_rx none frame arg d = d
call_rx (some cb) frame arg d = record d { calls = rx_done cb frame arg ∷ d.calls }

module _ {Hw : Type 0} (hal : Hal Hw) where
  -- The frame that is built from the receive buffer; `junk` is the uninitialised `frame.data`.
  unfoldable pub to_frame : List ℕ → RxBuf → Frame
  unfolding copy_bytes
  to_frame junk b = record {
    id = b.id;
    dlc = b.dlc;
    flags = record {
      ide = b.extend_id;
      rtr = b.remote_frame;
      fdf = b.canfd_frame;
      brs = b.bitrate_switch;
      esi = Bool.false;
    };
    payload = copy_bytes (hal.dlc_to_bytes b.dlc) 0 b.payload junk;
  }

  -- The handling of the receive callback: the slot of the filter, the test of the RTR bit, the call.
  unfoldable pub dispatch : Option ℕ → Frame → Dev Hw → Dev Hw
  dispatch none frame d = d
  dispatch (some i) frame d =
      let s = d.drv in
      let rtr = frame.flags.rtr in
      let dropped = xor (test_bit s.filter_rtr_mask i) rtr || xor (test_bit s.filter_rtr i) rtr in
      if dropped then d else call_rx (get_or s.rx_cb i none) frame (get_or s.rx_cb_arg i none) d

  unfoldable pub get_message : Dev Hw → Dev Hw
  unfolding to_frame dispatch
  get_message d =
      let (buf, hw') = hal.read_message d.hw in
      let d' : Dev Hw = record d { hw = hw' } in
      dispatch (get_first_filter_index buf d.drv) (to_frame (hal.uninit_payload d.hw) buf) d'
