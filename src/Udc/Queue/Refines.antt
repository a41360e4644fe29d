-- ===== src/Udc/Queue/Refines.antt =====
-- The completed transfers of drivers/usb/udc/udc_hpmicro.c, in the view of the queue.
use hpm_support.Prelude.{
  ℕ, ◌≡◌, ◌∙◌, refl, ap, ◌==◌, ◌⊎◌, inl, inr, Bool, true, false, Option, none, some, List, [], ◌∷◌,
  ◌++◌, min, if◌then◌else◌, if_ind, leb, ◌&&◌,
}
use hpm_support.Errno.{success, err, eio, enobufs}
use hpm_support.Udc.Types.{Buf, error, Dev}
use hpm_support.Udc.Hal.{Stack, Usb}
use hpm_support.Udc.Feed.{put_buf, transferred, copy}
use hpm_support.Udc.Control.{submit, add_to, consume, taken_off, control_in, control_out}
use hpm_support.Udc.Handlers.{
  handler_non_ctrl_in, handler_non_ctrl_out, handler_out, handler_in, handler_zlt, take_buf,
  received, then_feed, no_buf, out_with, in_with, unless_zlp, in_head, sent_zlp,
}
use hpm_support.Udc.Queue.{View, pop, offer, first, rest, view, QueueLaws}
use hpm_support.Udc.Queue.Offer.{answer, Sees, submit-view, ep_try_feed-offer, nocache_free-view}

module _ {Core Hw : Type 0} (stack : Stack Core Hw) (usb : Usb Hw) (nocache : Bool)
    (queue : ℕ → Core → List ℕ) (laws : QueueLaws stack queue) where
  take_buf-first :
      (ep : ℕ) (d : Dev Core Hw) → (take_buf stack usb nocache ep d).0 ≡ first (queue ep d.core)
  unfolding take_buf
  take_buf-first ep d = laws.get_lem ep d.core

  take_buf-view :
      (ep : ℕ) (d : Dev Core Hw)
      → view stack queue ep (take_buf stack usb nocache ep d).1
        ≡ record (view stack queue ep d) { queue = rest (queue ep d.core); busy = false }
  unfolding take_buf
  take_buf-view ep d =
      rw
        (
          laws.busy_lem ep false (stack.buf_get ep d.core).1,
          laws.busy_queue ep false (stack.buf_get ep d.core).1,
          laws.get_queue ep d.core,
        )
        refl

  -- What the handlers do to the buffer is not in the view.
  taken_off-view :
      (ep b hpm_buf hpm_len : ℕ) (d : Dev Core Hw)
      → view stack queue ep (taken_off stack usb nocache b hpm_buf hpm_len d)
        ≡ view stack queue ep d
  taken_off-view ep b hpm_buf hpm_len d =
      let c = put_buf b (consume (min (Buf.len (d.bufs b)) hpm_len) (d.bufs b)) d in
      if_ind (λ r. view stack queue ep r ≡ view stack queue ep d) nocache
        (nocache_free-view stack usb nocache queue laws ep hpm_buf c) refl

  received-view :
      (ep b hpm_buf hpm_len : ℕ) (d : Dev Core Hw)
      → view stack queue ep (received stack usb nocache b hpm_buf hpm_len d) ≡ view stack queue ep d
  received-view ep b hpm_buf hpm_len d =
      let len = min (stack.tailroom (d.bufs b)) hpm_len in
      let c = if nocache then copy (stack.tail (d.bufs b)) hpm_buf len d else d in
      let a = add_to stack usb nocache b len c in
      let same : view stack queue ep a ≡ view stack queue ep d =
        if_ind (λ r. view stack queue ep (add_to stack usb nocache b len r) ≡ view stack queue ep d)
          nocache refl refl in
      if_ind (λ r. view stack queue ep r ≡ view stack queue ep d) nocache
        (nocache_free-view stack usb nocache queue laws ep hpm_buf a ∙ same) same

  -- The report of a buffer that has been taken, and the offer of the next
  then_feed-offer :
      (ep b : ℕ) (q : List ℕ) (d e : Dev Core Hw)
      → queue ep d.core ≡ b ∷ q
      → view stack queue ep e ≡ record (view stack queue ep d) { queue = q; busy = false }
      → view stack queue ep
          (then_feed stack usb nocache ep (submit stack usb nocache b success e)).1
        ≡ offer
            (answer stack usb nocache queue laws ep (submit stack usb nocache b success e).1)
            (pop (view stack queue ep d))
  then_feed-offer ep b q d e h v =
      let s = (submit stack usb nocache b success e).1 in
      let given : View → View =
        λ w. record w { given = w.given ++ (record { buf = b; status = success } ∷ []) } in
      let p : view stack queue ep s ≡ pop (view stack queue ep d) =
        submit-view stack usb nocache queue laws ep b success e ∙ ap given v ∙ rw h refl in
      ep_try_feed-offer stack usb nocache queue laws ep s
      ∙ ap (offer (answer stack usb nocache queue laws ep s)) p

  -- A transfer has ended: the first buffer is given back and the next one offered.
  abbrev pub Finishes : ℕ → Dev Core Hw → Dev Core Hw → Type 0
  Finishes ep d r =
      (e : Dev Core Hw) × (view stack queue ep r
        ≡ offer (answer stack usb nocache queue laws ep e) (pop (view stack queue ep d)))

  -- A transfer of an empty queue leaves the endpoint idle.
  no_buf-Finishes :
      (ep : ℕ) (d : Dev Core Hw)
      → queue ep d.core ≡ []
      → Finishes ep d (no_buf stack usb nocache (take_buf stack usb nocache ep d).1).1
  no_buf-Finishes ep d h =
      let t = (take_buf stack usb nocache ep d).1 in
      (d, laws.event_view ep error (err enobufs) t ∙ take_buf-view ep d ∙ rw h (rw h refl))

  take_buf-cons :
      (ep b : ℕ) (q : List ℕ) (d : Dev Core Hw)
      → queue ep d.core ≡ b ∷ q
      → view stack queue ep (take_buf stack usb nocache ep d).1
        ≡ record (view stack queue ep d) { queue = q; busy = false }
  take_buf-cons ep b q d h = take_buf-view ep d ∙ rw h refl

  out_with-Finishes :
      (ep hpm_buf hpm_len : ℕ) (d : Dev Core Hw) (q : List ℕ)
      → queue ep d.core ≡ q
      → (ep == control_out) ≡ false
      → Finishes ep d
          (out_with stack usb nocache ep hpm_buf hpm_len
            (first q, (take_buf stack usb nocache ep d).1)).1
  unfolding handler_non_ctrl_out
  out_with-Finishes ep hpm_buf hpm_len d [] h c = no_buf-Finishes ep d h
  out_with-Finishes ep hpm_buf hpm_len d (b ∷ q) h c =
      let t = (take_buf stack usb nocache ep d).1 in
      let r = received stack usb nocache b hpm_buf hpm_len t in
      let s = (submit stack usb nocache b success r).1 in
      (
        s,
        rw c (
            then_feed-offer ep b q d r h
              (received-view ep b hpm_buf hpm_len t ∙ take_buf-cons ep b q d h)),
      )

  pub handler_out-Finishes :
      (ep hpm_buf hpm_len : ℕ) (d : Dev Core Hw)
      → (ep == control_out) ≡ false
      → Finishes ep d (handler_out stack usb nocache ep hpm_buf hpm_len d).1
  unfolding handler_out
  handler_out-Finishes ep hpm_buf hpm_len d c =
      rw (take_buf-first ep d) (out_with-Finishes ep hpm_buf hpm_len d (queue ep d.core) refl c)

  in_with-Finishes :
      (ep hpm_buf hpm_len : ℕ) (d : Dev Core Hw) (q : List ℕ)
      → queue ep d.core ≡ q
      → (ep == control_in) ≡ false
      → Finishes ep d
          (in_with stack usb nocache ep hpm_buf hpm_len
            (first q, (take_buf stack usb nocache ep d).1)).1
  unfolding handler_non_ctrl_in
  in_with-Finishes ep hpm_buf hpm_len d [] h c = no_buf-Finishes ep d h
  in_with-Finishes ep hpm_buf hpm_len d (b ∷ q) h c =
      let t = (take_buf stack usb nocache ep d).1 in
      let r = taken_off stack usb nocache b hpm_buf hpm_len t in
      let s = (submit stack usb nocache b success r).1 in
      (
        s,
        rw c (
            then_feed-offer ep b q d r h
              (taken_off-view ep b hpm_buf hpm_len t ∙ take_buf-cons ep b q d h)),
      )

  sent_zlp-view :
      (ep : ℕ) (d : Dev Core Hw) (r : Bool × Dev Core Hw)
      → Sees stack usb nocache queue laws ep d r
      → Sees stack usb nocache queue laws ep d (sent_zlp stack usb nocache r)
  sent_zlp-view ep d (true, e) h = h
  sent_zlp-view ep d (false, e) h = laws.event_view ep error (err eio) e ∙ h

  -- The test for an empty packet does not touch the view.
  handler_zlt-view :
      (ep b hpm_len : ℕ) (d : Dev Core Hw)
      → Sees stack usb nocache queue laws ep d (handler_zlt stack usb nocache ep b hpm_len d)
  unfolding handler_zlt
  handler_zlt-view ep b hpm_len d =
      let c = put_buf b (stack.clear_zlp (d.bufs b)) d in
      let r = usb.edpt_xfer ep 0 0 c.hw in
      if_ind (Sees stack usb nocache queue laws ep d)
        (leb (Buf.len (d.bufs b)) hpm_len && stack.has_zlp (d.bufs b))
        (sent_zlp-view ep d (transferred r c) refl) refl

  unless_zlp-Finishes :
      (ep hpm_buf hpm_len : ℕ) (d : Dev Core Hw) (r : Bool × Dev Core Hw)
      → Sees stack usb nocache queue laws ep d r
      → (ep == control_in) ≡ false
      → Finishes ep d (unless_zlp stack usb nocache ep hpm_buf hpm_len r).1
        ⊎ Sees stack usb nocache queue laws ep d (unless_zlp stack usb nocache ep hpm_buf hpm_len r)
  unless_zlp-Finishes ep hpm_buf hpm_len d (true, e) h c = inr h
  unless_zlp-Finishes ep hpm_buf hpm_len d (false, e) h c =
      let (a, p) = in_with-Finishes ep hpm_buf hpm_len e (queue ep e.core) refl c in
      let i : Finishes ep d
          (in_with stack usb nocache ep hpm_buf hpm_len (take_buf stack usb nocache ep e)).1 =
        rw (take_buf-first ep e)
          (a, p ∙ ap (λ v. offer (answer stack usb nocache queue laws ep a) (pop v)) h) in
      inl i

  -- The end of a transfer to the host: the buffer is given back, or an empty packet has to follow it
  -- and nothing changes, as for an empty queue.
  in_head-Finishes :
      (ep hpm_buf hpm_len : ℕ) (d : Dev Core Hw) (o : Option ℕ)
      → (ep == control_in) ≡ false
      → Finishes ep d (in_head stack usb nocache ep hpm_buf hpm_len o d).1
        ⊎ Sees stack usb nocache queue laws ep d (in_head stack usb nocache ep hpm_buf hpm_len o d)
  in_head-Finishes ep hpm_buf hpm_len d none c = inr (laws.event_view ep error (err enobufs) d)
  in_head-Finishes ep hpm_buf hpm_len d (some b) c =
      unless_zlp-Finishes ep hpm_buf hpm_len d (handler_zlt stack usb nocache ep b hpm_len d)
        (handler_zlt-view ep b hpm_len d) c

  pub handler_in-Finishes :
      (ep hpm_buf hpm_len : ℕ) (d : Dev Core Hw)
      → (ep == control_in) ≡ false
      → Finishes ep d (handler_in stack usb nocache ep hpm_buf hpm_len d).1
        ⊎ Sees stack usb nocache queue laws ep d (handler_in stack usb nocache ep hpm_buf hpm_len d)
  unfolding handler_in
  handler_in-Finishes ep hpm_buf hpm_len d c =
      in_head-Finishes ep hpm_buf hpm_len d (stack.buf_peek ep d.core) c
