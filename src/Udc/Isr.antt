-- ===== src/Udc/Isr.antt =====
-- udc_hpm_isr. The walk along a transfer's descriptors is recursion on fuel; `none` says that it has
-- not ended.
pub mod Chain
pub mod Failed
use mathlib.Core.Option
use hpm_support.Prelude.{
  ℕ, zero, suc, ◌+◌, ◌-◌, ◌*◌, ◌/◌, ◌%◌, ◌==◌, Bool, true, false, not, ◌&&◌, ◌||◌, Option, none,
  some, if◌then◌else◌, test_bit,
}
use hpm_support.Errno.{Status, success, Result, ok, err, eio}
use hpm_support.Udc.Types.{
  Flags, Qtd, Event, reset, suspend, resume, vbus_ready, vbus_removed, error, Dev,
}
use hpm_support.Udc.Hal.{Stack, Usb}
use hpm_support.Udc.Feed.{on_core, on_hw, is_in}
use hpm_support.Udc.Control.{control_out, control_in, handler_setup}
use hpm_support.Udc.Handlers.{handler_out, handler_in}

-- `ep_idx2bit`
abbrev pub ep_idx2bit : ℕ → ℕ
ep_idx2bit i = i / 2 + (if i % 2 == 1 then 16 else 0)

-- `(ep_idx / 2) | ((ep_idx & 0x01) ? 0x80 : 0)` for an index below 256
abbrev pub ep_addr_of : ℕ → ℕ
ep_addr_of i = i / 2 + (if i % 2 == 1 then 128 else 0)

abbrev pub and_flags : Flags → Flags → Flags
and_flags a b = record {
  ue = a.ue && b.ue;
  uee = a.uee && b.uee;
  sle = a.sle && b.sle;
  pce = a.pce && b.pce;
  ure = a.ure && b.ure;
}

abbrev pub is_faulty : Qtd → Bool
is_faulty q = q.halted || q.xact_err || q.buffer_err

-- `transfer_len += p_qtd->expected_bytes - p_qtd->total_bytes` on `uint32_t`
abbrev pub add_bytes : ℕ → Qtd → ℕ
add_bytes n q = (n + q.expected_bytes + (4294967296 - q.total_bytes)) % 4294967296

module _ {Core Hw : Type 0} (stack : Stack Core Hw) (usb : Usb Hw) (nocache : Bool) where
  -- The length of the transfer whose descriptors start at `p`, from the length `n` on; `some none`
  -- when it has failed or has not finished.
  unfoldable pub transfer_length : ℕ → ℕ → ℕ → Hw → Option (Option ℕ)
  transfer_length zero p n hw = none
  transfer_length (suc k) p n hw =
      let q = usb.qtd p hw in
      let rest = transfer_length k q.next (add_bytes n q) hw in
      if is_faulty q || q.active
      then some none
      else if q.next == usb.next_invalid
      then some (some (add_bytes n q))
      else rest

  -- The handler of a transfer; its length is an argument of `uint16_t`.
  abbrev pub finish : ℕ → ℕ → Option ℕ → Dev Core Hw → Dev Core Hw
  finish ep hpm_buf none d = d
  finish ep hpm_buf (some n) d =
      if is_in ep
      then (handler_in stack usb nocache ep hpm_buf (n % 65536) d).1
      else (handler_out stack usb nocache ep hpm_buf (n % 65536) d).1

  -- One round of the loop
  unfoldable pub complete_index : ℕ → ℕ → ℕ → Dev Core Hw → Option (Dev Core Hw)
  complete_index fuel complete i d =
      if test_bit complete (ep_idx2bit i)
      then Option.map (λ r. finish (ep_addr_of i) (usb.attached_buffer i d.hw) r d)
          (transfer_length fuel (usb.attached_qtd i d.hw) 0 d.hw)
      else some d

  -- The rounds from the index `i` on, of which `n` are left
  unfoldable pub complete_from : ℕ → ℕ → ℕ → ℕ → Dev Core Hw → Option (Dev Core Hw)
  complete_from fuel complete zero i d = some d
  complete_from fuel complete (suc n) i d =
      Option.bind (complete_index fuel complete i d) (complete_from fuel complete n (suc i))

  -- The endpoints that have finished
  abbrev pub complete_all : ℕ → ℕ → Dev Core Hw → Option (Dev Core Hw)
  complete_all fuel complete d =
      if complete == 0
      then some d
      else complete_from fuel complete usb.max_qhd_count 0
          (on_hw (usb.clear_edpt_complete_status complete) d)

  abbrev pub set_up : ℕ → Dev Core Hw → Dev Core Hw
  set_up status d =
      let c = on_hw (usb.clear_setup_status status) d in
      if status == 0 then d else handler_setup stack usb nocache (usb.setup_request c.hw) c

  -- The part for `UE`
  unfoldable pub transfers_phase : ℕ → Flags → Dev Core Hw → Option (Dev Core Hw)
  transfers_phase fuel flags d =
      if flags.ue
      then Option.map (set_up (usb.setup_status d.hw))
          (complete_all fuel (usb.edpt_complete_status d.hw) d)
      else some d

  -- The part for `UEE`
  abbrev pub error_phase : Flags → Dev Core Hw → Dev Core Hw
  error_phase flags d = if flags.uee then stack.submit_event error (err eio) d else d

  abbrev pub disabled : ℕ → Dev Core Hw → Dev Core Hw
  disabled ep d = if d.enabled ep then stack.ep_disable_internal ep d else d

  abbrev pub both_enabled : Status × Dev Core Hw → Bool × Dev Core Hw
  both_enabled (ok u, d) = (true, stack.submit_event reset success d)
  both_enabled (err e, d) = (false, d)

  abbrev pub out_enabled : Status × Dev Core Hw → Bool × Dev Core Hw
  out_enabled (ok u, d) = both_enabled (stack.ep_enable_internal control_in 64 d)
  out_enabled (err e, d) = (false, d)

  -- The part for `URE`: whether the handler goes on
  unfoldable pub reset_phase : Flags → Dev Core Hw → Bool × Dev Core Hw
  reset_phase flags d =
      if flags.ure
      then out_enabled (
          stack.ep_enable_internal control_out 64
            (disabled control_in (disabled control_out (on_hw (usb.bus_reset 64) d))))
      else (true, d)

  -- The parts for `SLE` and `PCE`
  unfoldable pub suspend_phase : Flags → Dev Core Hw → Dev Core Hw
  suspend_phase flags d =
      if flags.sle && usb.suspend_status d.hw && not (usb.get_address d.hw == 0)
      then stack.submit_event suspend success (on_core (stack.set_suspended true) d)
      else d

  unfoldable pub port_phase : Flags → Dev Core Hw → Dev Core Hw
  port_phase flags d =
      if flags.pce
      then if usb.port_ccs d.hw
        then stack.submit_event vbus_ready success
            (stack.submit_event resume success (on_core (stack.set_suspended false) d))
        else stack.submit_event vbus_removed success d
      else d

  abbrev pub after_reset : ℕ → Flags → Bool × Dev Core Hw → Option (Dev Core Hw)
  after_reset fuel flags (false, d) = some d
  after_reset fuel flags (true, d) =
      transfers_phase fuel flags (port_phase flags (suspend_phase flags d))

  -- `udc_hpm_isr`
  unfoldable pub isr : ℕ → Dev Core Hw → Option (Dev Core Hw)
  isr fuel d =
      let flags = and_flags (usb.status_flags d.hw) (usb.interrupts d.hw) in
      after_reset fuel flags
        (reset_phase flags (error_phase flags (on_hw (usb.clear_status_flags flags) d)))
