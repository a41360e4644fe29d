-- ===== src/Udc/Endpoint.antt =====
-- The functions of `udc_hpm_api` for an endpoint: udc_hpm_ep_enqueue to udc_hpm_ep_disable.
use hpm_support.Prelude.{ℕ, ◌%◌, Bool, false, Option, none, some, if◌then◌else◌}
use hpm_support.Errno.{Status, success, err, econnaborted}
use hpm_support.Udc.Types.{EpConfig, Dev}
use hpm_support.Udc.Hal.{Stack, Usb}
use hpm_support.Udc.Feed.{at, on_core, on_hw, ep_try_feed}
use hpm_support.Udc.Control.{submit}

module _ {Core Hw : Type 0} (stack : Stack Core Hw) (usb : Usb Hw) (nocache : Bool) where
  -- `udc_hpm_ep_enqueue`
  unfoldable pub ep_enqueue : ℕ → ℕ → Dev Core Hw → Status × Dev Core Hw
  ep_enqueue ep b d =
      let p = on_core (stack.buf_put ep b) d in
      if d.halted ep then (success, p) else ep_try_feed stack usb nocache ep p

  -- The buffers that `udc_buf_get_all` has chained, reported as one
  abbrev pub abort : Option ℕ × Core → Dev Core Hw → Dev Core Hw
  abort (none, c) d = record d { core = c }
  abort (some b, c) d = (submit stack usb nocache b (err econnaborted) (record d { core = c })).1

  -- `udc_hpm_ep_dequeue`
  unfoldable pub ep_dequeue : ℕ → Dev Core Hw → Status × Dev Core Hw
  ep_dequeue ep d =
      let h : Dev Core Hw = record d { halted = at ep false d.halted } in
      (success, on_core (stack.set_busy ep false) (abort (stack.buf_get_all ep d.core) h))

  -- `udc_hpm_ep_set_halt`
  unfoldable pub ep_set_halt : ℕ → Dev Core Hw → Status × Dev Core Hw
  ep_set_halt ep d = (success, on_hw (usb.edpt_stall ep) d)

  -- `udc_hpm_ep_clear_halt`
  unfoldable pub ep_clear_halt : ℕ → Dev Core Hw → Status × Dev Core Hw
  ep_clear_halt ep d = ep_try_feed stack usb nocache ep (on_hw (usb.edpt_clear_stall ep) d)

  -- `udc_hpm_ep_enable`; `USB_EP_TRANSFER_TYPE_MASK` is 3.
  unfoldable pub ep_enable : EpConfig → Dev Core Hw → Status × Dev Core Hw
  ep_enable cfg d =
      (success, on_hw (usb.edpt_open (record cfg { attributes = cfg.attributes % 4 })) d)

  -- `udc_hpm_ep_disable`
  unfoldable pub ep_disable : ℕ → Dev Core Hw → Status × Dev Core Hw
  ep_disable ep d = (success, on_hw (usb.edpt_close ep) d)
