-- ===== src/Udc/Isr/Failed.antt =====
-- A transfer that has failed, in udc_hpm_isr.
use hpm_support.Prelude.{
  ℕ, ◌≡◌, ◌≤◌, ◌<◌, ◌∙◌, refl, Bool, true, none, some, List, length, if_ind, test_bit, Option,
}
use hpm_support.Errno.{Status, success}
use hpm_support.Udc.Types.{Qtd, Dev}
use hpm_support.Udc.Hal.{Stack, Usb}
use hpm_support.Udc.Feed.{on_core, ep_feed, ep_try_feed, feed_head}
use hpm_support.Udc.Isr.{ep_idx2bit, ep_addr_of, complete_index}
use hpm_support.Udc.Isr.Chain.{any_undone, IsChain, IsCounted, moved, transfer_length-moved}
use hpm_support.Udc.Endpoint.{ep_enqueue}
use hpm_support.Udc.Queue.{QueueLaws}

module _ {Core Hw : Type 0} (stack : Stack Core Hw) (usb : Usb Hw) (nocache : Bool) where
  feed_head-busy :
      (ep : ℕ) (o : Option ℕ) (d : Dev Core Hw)
      → stack.is_busy ep d.core ≡ true
      → feed_head stack usb nocache ep o d ≡ (success, d)
  unfolding ep_feed
  feed_head-busy ep none d h = refl
  feed_head-busy ep (some b) d h = rw h refl

  ep_enqueue-busy :
      (queue : ℕ → Core → List ℕ) (ep b : ℕ) (d : Dev Core Hw)
      → QueueLaws stack queue
      → stack.is_busy ep d.core ≡ true
      → ep_enqueue stack usb nocache ep b d ≡ (success, on_core (stack.buf_put ep b) d)
  unfolding ep_enqueue ep_try_feed
  ep_enqueue-busy queue ep b d laws h =
      let p = on_core (stack.buf_put ep b) d in
      if_ind (λ (r : Status × Dev Core Hw). r ≡ (success, p)) (d.halted ep) refl
        (feed_head-busy ep (stack.buf_peek ep p.core) p (laws.put_busy ep b d.core ∙ h))

  -- The end of a transfer of which a descriptor has failed or is still active leaves the device as it
  -- is: nothing is reported and the endpoint stays busy. A buffer that is then added to it is put into
  -- the queue with success, and no transfer is started.
  pub complete_index-undone :
      (queue : ℕ → Core → List ℕ) (fuel complete i b : ℕ) (qs : List Qtd) (d : Dev Core Hw)
      → QueueLaws stack queue
      → test_bit complete (ep_idx2bit i) ≡ true
      → IsChain usb (usb.attached_qtd i d.hw) qs d.hw
      → IsCounted qs
      → moved qs < 4294967296
      → length qs ≤ fuel
      → any_undone qs ≡ true
      → stack.is_busy (ep_addr_of i) d.core ≡ true
      → (complete_index stack usb nocache fuel complete i d ≡ some d)
        × (ep_enqueue stack usb nocache (ep_addr_of i) b d
            ≡ (success, on_core (stack.buf_put (ep_addr_of i) b) d))
  unfolding complete_index
  complete_index-undone queue fuel complete i b qs d laws t h c m l u y =
      let n =
        transfer_length-moved stack usb nocache fuel (usb.attached_qtd i d.hw) qs d.hw h c m l in
      (rw (t, n, u) refl, ep_enqueue-busy queue (ep_addr_of i) b d laws y)
