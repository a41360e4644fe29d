-- ===== src/Udc/Control.antt =====
-- The control endpoint: udc_hpm_ctrl_feed_dout, udc_hpm_handler_setup, udc_hpm_handler_ctrl_out and
-- udc_hpm_handler_ctrl_in.
pub mod Dangling
use hpm_support.Prelude.{
  ℕ, ◌+◌, ◌-◌, ◌==◌, min, Bool, true, false, ◌&&◌, ◌||◌, Option, none, some, List, [], ◌∷◌, ◌++◌,
  if◌then◌else◌,
}
use hpm_support.Errno.{Status, success, Result, ok, err, enomem}
use hpm_support.Udc.Types.{
  Buf, Stage, data_out, data_in, status_out, status_in, no_data, Setup, Given, Dev,
}
use hpm_support.Udc.Hal.{Stack, Usb}
use hpm_support.Udc.Feed.{put_buf, copy, on_hw, nocache_free, ep_feed}

-- `USB_CONTROL_EP_OUT`, `USB_CONTROL_EP_IN`
abbrev pub control_out : ℕ
control_out = 0

abbrev pub control_in : ℕ
control_in = 128

-- `buf->data += len; buf->len -= len;` for a `len` that is not above the buffer's
abbrev pub consume : ℕ → Buf → Buf
consume n b = record b { addr = b.addr + n; len = b.len - n }

module _ {Core Hw : Type 0} where
  abbrev pub give : ℕ → Status → Dev Core Hw → Dev Core Hw
  give b st d = record d { given = d.given ++ (record { buf = b; status = st } ∷ []) }

module _ {Core Hw : Type 0} (stack : Stack Core Hw) (usb : Usb Hw) (nocache : Bool) where
  -- `udc_submit_ep_event`
  unfoldable pub submit : ℕ → Status → Dev Core Hw → Status × Dev Core Hw
  submit b st d = stack.submit_ep_event b st (give b st d)

  abbrev pub is_stage : Stage → Dev Core Hw → Bool
  is_stage s d = stack.ctrl_stage_is s d.core

  -- The end of `udc_hpm_ctrl_feed_dout`
  abbrev pub kept : ℕ → Status × Dev Core Hw → Status × Dev Core Hw
  kept b (ok u, d) = (success, d)
  kept b (err e, d) = (err e, stack.unref b d)

  abbrev pub feed_dout : Option ℕ × Dev Core Hw → Status × Dev Core Hw
  feed_dout (none, d) = (err enomem, d)
  feed_dout (some b, d) = kept b (
      ep_feed stack usb nocache control_out b
        (record d { core = stack.buf_put control_out b d.core }))

  -- `udc_hpm_ctrl_feed_dout`
  unfoldable pub ctrl_feed_dout : ℕ → Dev Core Hw → Status × Dev Core Hw
  ctrl_feed_dout length d = feed_dout (stack.ctrl_alloc control_out length d)

  -- `net_buf_add`
  abbrev pub add_to : ℕ → ℕ → Dev Core Hw → Dev Core Hw
  add_to b n d = put_buf b (stack.add n (d.bufs b)) d

  -- The report that there is no buffer for the data
  abbrev pub unless_fed : ℕ → Status × Dev Core Hw → Dev Core Hw
  unless_fed b (ok u, d) = d
  unless_fed b (err enomem, d) = (submit b (err enomem) d).1
  unless_fed b (err e, d) = d

  -- What follows the setup stage
  abbrev pub next_stage : ℕ → Dev Core Hw → Dev Core Hw
  next_stage b d =
      if is_stage data_out d
      then unless_fed b (ctrl_feed_dout (stack.data_stage_length b d) d)
      else if is_stage data_in d
      then (stack.ctrl_submit_s_in_status d).1
      else (stack.ctrl_submit_s_status d).1

  abbrev pub after_setup : ℕ → Dev Core Hw → Dev Core Hw
  after_setup b d = if Buf.len (d.bufs b) == 0 then d else next_stage b d

  -- The address of the device, set when a packet asks for it
  abbrev pub set_address_of : Setup → Dev Core Hw → Dev Core Hw
  set_address_of s d =
      if s.standard && s.to_device && s.set_address && (s.length == 0)
      then on_hw (usb.set_address s.value) d
      else d

  abbrev pub setup_buf : ℕ → Setup → Dev Core Hw → Dev Core Hw
  setup_buf b s d =
      let f = put_buf b (stack.set_setup (d.bufs b)) d in
      add_to b 8 (copy (Buf.addr (f.bufs b)) s.at 8 f)

  abbrev pub setup_with : Setup → Option ℕ × Dev Core Hw → Dev Core Hw
  setup_with s (none, d) = d
  setup_with s (some b, d) =
      after_setup b (stack.ctrl_update_stage b (set_address_of s (setup_buf b s d)))

  -- `udc_hpm_handler_setup`
  unfoldable pub handler_setup : Setup → Dev Core Hw → Dev Core Hw
  handler_setup s d = setup_with s (stack.ctrl_alloc control_out 8 d)

  abbrev pub out_stage : ℕ → Dev Core Hw → Status × Dev Core Hw
  out_stage b d =
      let u = stack.ctrl_update_stage b d in
      if is_stage status_out d then stack.ctrl_submit_status b u else (success, u)

  abbrev pub in_status : ℕ → Status × Dev Core Hw → Status × Dev Core Hw
  in_status b (st, d) = if is_stage status_in d then stack.ctrl_submit_s_out_status b d else (st, d)

  -- `udc_hpm_handler_ctrl_out`
  unfoldable pub handler_ctrl_out : ℕ → ℕ → ℕ → Dev Core Hw → Status × Dev Core Hw
  handler_ctrl_out b hpm_buf hpm_len d =
      let len = min (stack.tailroom (d.bufs b)) hpm_len in
      let c =
        if nocache
        then nocache_free stack usb nocache hpm_buf (copy (stack.tail (d.bufs b)) hpm_buf len d)
        else d in
      in_status b (out_stage b (add_to b len c))

  abbrev pub taken_off : ℕ → ℕ → ℕ → Dev Core Hw → Dev Core Hw
  taken_off b hpm_buf hpm_len d =
      let c = put_buf b (consume (min (Buf.len (d.bufs b)) hpm_len) (d.bufs b)) d in
      if nocache then nocache_free stack usb nocache hpm_buf c else c

  abbrev pub status_done : ℕ → Dev Core Hw → Status × Dev Core Hw
  status_done b d =
      if is_stage status_in d || is_stage no_data d
      then stack.ctrl_submit_status b d
      else (success, d)

  abbrev pub out_status : ℕ → Status × Dev Core Hw → Status × Dev Core Hw
  out_status b (st, d) =
      let u = stack.ctrl_update_stage b d in
      if is_stage status_out u then ctrl_feed_dout 0 (stack.unref b u) else (st, u)

  -- `udc_hpm_handler_ctrl_in`
  unfoldable pub handler_ctrl_in : ℕ → ℕ → ℕ → Dev Core Hw → Status × Dev Core Hw
  handler_ctrl_in b hpm_buf hpm_len d = out_status b (status_done b (taken_off b hpm_buf hpm_len d))
