-- ===== src/Udc/Handlers.antt =====
-- The completed transfers: udc_hpm_handler_non_ctrl_in, udc_hpm_handler_non_ctrl_out,
-- udc_hpm_handler_out, udc_hpm_handler_zlt and udc_hpm_handler_in.
use hpm_support.Prelude.{
  ℕ, ◌==◌, leb, min, Bool, true, false, ◌&&◌, Option, none, some, if◌then◌else◌,
}
use hpm_support.Errno.{Status, success, err, eio, enobufs}
use hpm_support.Udc.Types.{Buf, error, Dev}
use hpm_support.Udc.Hal.{Stack, Usb}
use hpm_support.Udc.Feed.{put_buf, copy, transferred, nocache_free, ep_try_feed}
use hpm_support.Udc.Control.{
  control_in, control_out, submit, add_to, taken_off, handler_ctrl_in, handler_ctrl_out,
}

module _ {Core Hw : Type 0} (stack : Stack Core Hw) (usb : Usb Hw) (nocache : Bool) where
  -- The result of the report, after the next buffer has been tried
  abbrev pub then_feed : ℕ → Status × Dev Core Hw → Status × Dev Core Hw
  then_feed ep (st, d) = (st, (ep_try_feed stack usb nocache ep d).1)

  -- `udc_hpm_handler_non_ctrl_in`
  unfoldable pub handler_non_ctrl_in : ℕ → ℕ → ℕ → ℕ → Dev Core Hw → Status × Dev Core Hw
  handler_non_ctrl_in ep b hpm_buf hpm_len d =
      then_feed ep
        (submit stack usb nocache b success (taken_off stack usb nocache b hpm_buf hpm_len d))

  -- The data of a transfer, added to the buffer
  abbrev pub received : ℕ → ℕ → ℕ → Dev Core Hw → Dev Core Hw
  received b hpm_buf hpm_len d =
      let len = min (stack.tailroom (d.bufs b)) hpm_len in
      let c = if nocache then copy (stack.tail (d.bufs b)) hpm_buf len d else d in
      let a = add_to stack usb nocache b len c in
      if nocache then nocache_free stack usb nocache hpm_buf a else a

  -- `udc_hpm_handler_non_ctrl_out`
  unfoldable pub handler_non_ctrl_out : ℕ → ℕ → ℕ → ℕ → Dev Core Hw → Status × Dev Core Hw
  handler_non_ctrl_out ep b hpm_buf hpm_len d =
      then_feed ep (submit stack usb nocache b success (received b hpm_buf hpm_len d))

  -- `udc_buf_get`, and the end of the transfer
  unfoldable pub take_buf : ℕ → Dev Core Hw → Option ℕ × Dev Core Hw
  take_buf ep d =
      let (b, c) = stack.buf_get ep d.core in (b, record d { core = stack.set_busy ep false c })

  abbrev pub no_buf : Dev Core Hw → Status × Dev Core Hw
  no_buf d = (err enobufs, stack.submit_event error (err enobufs) d)

  abbrev pub out_with : ℕ → ℕ → ℕ → Option ℕ × Dev Core Hw → Status × Dev Core Hw
  out_with ep hpm_buf hpm_len (none, d) = no_buf d
  out_with ep hpm_buf hpm_len (some b, d) =
      if ep == control_out
      then handler_ctrl_out stack usb nocache b hpm_buf hpm_len d
      else handler_non_ctrl_out ep b hpm_buf hpm_len d

  -- `udc_hpm_handler_out`
  unfoldable pub handler_out : ℕ → ℕ → ℕ → Dev Core Hw → Status × Dev Core Hw
  handler_out ep hpm_buf hpm_len d = out_with ep hpm_buf hpm_len (take_buf ep d)

  -- The empty packet, and whether it is on its way
  abbrev pub sent_zlp : Bool × Dev Core Hw → Bool × Dev Core Hw
  sent_zlp (true, d) = (true, d)
  sent_zlp (false, d) = (false, stack.submit_event error (err eio) d)

  -- `udc_hpm_handler_zlt`
  unfoldable pub handler_zlt : ℕ → ℕ → ℕ → Dev Core Hw → Bool × Dev Core Hw
  handler_zlt ep b hpm_len d =
      let c = put_buf b (stack.clear_zlp (d.bufs b)) d in
      if leb (Buf.len (d.bufs b)) hpm_len && stack.has_zlp (d.bufs b)
      then sent_zlp (transferred (usb.edpt_xfer ep 0 0 c.hw) c)
      else (false, d)

  abbrev pub in_with : ℕ → ℕ → ℕ → Option ℕ × Dev Core Hw → Status × Dev Core Hw
  in_with ep hpm_buf hpm_len (none, d) = no_buf d
  in_with ep hpm_buf hpm_len (some b, d) =
      if ep == control_in
      then handler_ctrl_in stack usb nocache b hpm_buf hpm_len d
      else handler_non_ctrl_in ep b hpm_buf hpm_len d

  abbrev pub unless_zlp : ℕ → ℕ → ℕ → Bool × Dev Core Hw → Status × Dev Core Hw
  unless_zlp ep hpm_buf hpm_len (true, d) = (success, d)
  unless_zlp ep hpm_buf hpm_len (false, d) = in_with ep hpm_buf hpm_len (take_buf ep d)

  abbrev pub in_head : ℕ → ℕ → ℕ → Option ℕ → Dev Core Hw → Status × Dev Core Hw
  in_head ep hpm_buf hpm_len none d = no_buf d
  in_head ep hpm_buf hpm_len (some b) d = unless_zlp ep hpm_buf hpm_len (handler_zlt ep b hpm_len d)

  -- `udc_hpm_handler_in`
  unfoldable pub handler_in : ℕ → ℕ → ℕ → Dev Core Hw → Status × Dev Core Hw
  handler_in ep hpm_buf hpm_len d = in_head ep hpm_buf hpm_len (stack.buf_peek ep d.core) d
