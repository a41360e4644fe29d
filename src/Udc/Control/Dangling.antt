-- ===== src/Udc/Control/Dangling.antt =====
-- A failure of udc_hpm_ctrl_feed_dout.
use hpm_support.Prelude.{ℕ, ◌≡◌, ◌∙◌, ap, sym, Bool, some, List, [], ◌∷◌, ◌++◌}
use hpm_support.Errno.{Status, Errno, ok, err}
use hpm_support.Udc.Types.{Dev}
use hpm_support.Udc.Hal.{Stack, Usb}
use hpm_support.Udc.Feed.{on_core, ep_feed}
use hpm_support.Udc.Control.{control_out, kept, ctrl_feed_dout, feed_dout}
use hpm_support.Udc.Queue.{QueueLaws}
use hpm_support.Udc.Queue.Offer.{ep_feed-queue}

module _ {Core Hw : Type 0} (stack : Stack Core Hw) (usb : Usb Hw) (nocache : Bool) where
  kept-err :
      (b : ℕ) (r : Status × Dev Core Hw) (e : Errno)
      → (kept stack usb nocache b r).0 ≡ err e
      → kept stack usb nocache b r ≡ (err e, stack.unref b r.1)
  kept-err b (ok u, d) e h = cc
  kept-err b (err f, d) e h = ap (λ (s : Status). (s, stack.unref b d)) h

  -- When the feeding of a new control buffer fails, the buffer is released while the queue of the
  -- control endpoint still ends with it.
  pub ctrl_feed_dout-err :
      (queue : ℕ → Core → List ℕ) (b n : ℕ) (d a : Dev Core Hw) (e : Errno)
      → QueueLaws stack queue
      → stack.ctrl_alloc control_out n d ≡ (some b, a)
      → (ctrl_feed_dout stack usb nocache n d).0 ≡ err e
      → (r : Dev Core Hw) × (ctrl_feed_dout stack usb nocache n d ≡ (err e, stack.unref b r))
        × (queue control_out r.core ≡ queue control_out a.core ++ (b ∷ []))
  unfolding ctrl_feed_dout
  ctrl_feed_dout-err queue b n d a e laws h f =
      let p = on_core (stack.buf_put control_out b) a in
      let r = ep_feed stack usb nocache control_out b p in
      let g : feed_dout stack usb nocache (stack.ctrl_alloc control_out n d)
          ≡ kept stack usb nocache b r =
        ap (feed_dout stack usb nocache) h in
      (
        r.1,
        g ∙ kept-err b r e (sym (ap (λ (x : Status × Dev Core Hw). x.0) g) ∙ f),
        ep_feed-queue stack usb nocache queue laws control_out b p
            ∙ laws.put_queue control_out b a.core,
      )
