-- ===== src/Udc/Queue/Offer.antt =====
-- The offer of the first buffer to the controller, drivers/usb/udc/udc_hpmicro.c, in the view of the queue.
use hpm_support.Prelude.{
  ℕ, ◌≡◌, ◌∙◌, refl, ap, ◌==◌, inl, inr, Bool, true, false, Option, none, some, List, [], ◌∷◌, ◌++◌,
  if◌then◌else◌, if_ind, Bool-cases,
}
use hpm_support.Errno.{Status}
use hpm_support.Udc.Types.{Buf, Dev}
use hpm_support.Udc.Hal.{Stack, Usb}
use hpm_support.Udc.Feed.{
  on_core, nocache_alloc, nocache_free, start_xfer, ep_feed, ep_try_feed, feed_head, fed, is_in,
}
use hpm_support.Udc.Control.{submit}
use hpm_support.Udc.Queue.{View, push, offer, first, view, QueueLaws}

module _ {Core Hw : Type 0} (stack : Stack Core Hw) (usb : Usb Hw) (nocache : Bool)
    (queue : ℕ → Core → List ℕ) (laws : QueueLaws stack queue) where
  -- The view is told from the queue, the flags and the log.
  view_eq :
      (ep : ℕ) (d e : Dev Core Hw)
      → queue ep e.core ≡ queue ep d.core
      → stack.is_busy ep e.core ≡ stack.is_busy ep d.core
      → e.halted ≡ d.halted
      → e.given ≡ d.given
      → view stack queue ep e ≡ view stack queue ep d
  view_eq ep d e q b h g = rw (q, b, h, g) refl

  nocache_alloc-view :
      (ep n : ℕ) (d : Dev Core Hw)
      → view stack queue ep (nocache_alloc stack usb nocache n d).1 ≡ view stack queue ep d
  unfolding nocache_alloc
  nocache_alloc-view ep n d =
      let l = laws.alloc_view ep n d.core in
      view_eq ep d (nocache_alloc stack usb nocache n d).1 l.0 l.1 refl refl

  pub nocache_free-view :
      (ep p : ℕ) (d : Dev Core Hw)
      → view stack queue ep (nocache_free stack usb nocache p d) ≡ view stack queue ep d
  unfolding nocache_free
  nocache_free-view ep p d =
      let l = laws.free_view ep p d.core in
      elim (Bool-cases (p == 0)) [
        | inl e ↦ rw e refl
        | inr e ↦ rw e (view_eq ep d (on_core (stack.heap_free p) d) l.0 l.1 refl refl)
      ]

  -- The pair of an address and a device has the view of `d`.
  abbrev pub Sees {ℓ} : {A : Type ℓ} → ℕ → Dev Core Hw → A × Dev Core Hw → Type 0
  Sees ep d r = view stack queue ep r.1 ≡ view stack queue ep d

  alloc-Sees :
      (ep n : ℕ) (d : Dev Core Hw)
      → Sees ep d (if n == 0 then (0, d) else nocache_alloc stack usb nocache n d)
  alloc-Sees ep n d = if_ind (Sees ep d) (n == 0) refl (nocache_alloc-view ep n d)

  start_xfer-view : (ep b : ℕ) (d : Dev Core Hw) → Sees ep d (start_xfer stack usb nocache ep b d)
  unfolding start_xfer
  start_xfer-view ep b d =
      if_ind (Sees ep d) (is_in ep)
        (if_ind (Sees ep d) nocache (alloc-Sees ep (Buf.len (d.bufs b)) d) refl)
        (if_ind (Sees ep d) nocache (alloc-Sees ep (stack.tailroom (d.bufs b)) d) refl)

  -- What the controller answers when the first buffer is offered.
  abbrev pub answer_to : ℕ → Option ℕ → Dev Core Hw → Bool
  answer_to ep none d = true
  answer_to ep (some b) d =
      (start_xfer stack usb nocache ep b (on_core (stack.set_busy ep true) d)).0

  abbrev pub answer : ℕ → Dev Core Hw → Bool
  answer ep d = answer_to ep (stack.buf_peek ep d.core) d

  set_busy-view :
      (ep : ℕ) (v : Bool) (d : Dev Core Hw)
      → view stack queue ep (on_core (stack.set_busy ep v) d)
        ≡ record (view stack queue ep d) { busy = v }
  set_busy-view ep v d = rw (laws.busy_lem ep v d.core, laws.busy_queue ep v d.core) refl

  fed-view :
      (ep : ℕ) (d : Dev Core Hw) (r : Bool × Dev Core Hw)
      → Sees ep (on_core (stack.set_busy ep true) d) r
      → view stack queue ep (fed stack usb nocache ep r).1
        ≡ record (view stack queue ep d) { busy = r.0 }
  fed-view ep d (true, e) h = h ∙ set_busy-view ep true d
  fed-view ep d (false, e) h =
      set_busy-view ep false e
      ∙ ap (λ (v : View). record v { busy = false }) (h ∙ set_busy-view ep true d)

  -- Whatever becomes of the offer, the queue stays as it is.
  pub ep_feed-queue :
      (ep b : ℕ) (d : Dev Core Hw)
      → queue ep (ep_feed stack usb nocache ep b d).1.core ≡ queue ep d.core
  unfolding ep_feed
  ep_feed-queue ep b d =
      let s = on_core (stack.set_busy ep true) d in
      let r = start_xfer stack usb nocache ep b s in
      if_ind (λ (x : Status × Dev Core Hw). queue ep (Dev.core x.1) ≡ queue ep d.core)
        (stack.is_busy ep d.core) refl
        (ap (λ v. View.queue v) (fed-view ep d r (start_xfer-view ep b s)))

  head-view :
      (ep : ℕ) (d : Dev Core Hw) (q : List ℕ)
      → queue ep d.core ≡ q
      → view stack queue ep (feed_head stack usb nocache ep (first q) d).1
        ≡ offer (answer_to ep (first q) d) (view stack queue ep d)
  unfolding ep_feed
  head-view ep d [] e = elim (Bool-cases (stack.is_busy ep d.core)) [
    | inl h ↦ rw (e, h) refl
    | inr h ↦ rw (e, h) refl
  ]
  head-view ep d (b ∷ q) e =
      let s = on_core (stack.set_busy ep true) d in
      elim (Bool-cases (stack.is_busy ep d.core)) [
        | inl h ↦ rw h (rw h refl)
        | inr h ↦
            rw (h, e)
              (fed-view ep d (start_xfer stack usb nocache ep b s) (start_xfer-view ep b s)
                ∙ rw e refl)
      ]

  pub ep_try_feed-offer :
      (ep : ℕ) (d : Dev Core Hw)
      → view stack queue ep (ep_try_feed stack usb nocache ep d).1
        ≡ offer (answer ep d) (view stack queue ep d)
  unfolding ep_try_feed
  ep_try_feed-offer ep d = rw (laws.peek_lem ep d.core) (head-view ep d (queue ep d.core) refl)

  pub submit-view :
      (ep b : ℕ) (st : Status) (d : Dev Core Hw)
      → view stack queue ep (submit stack usb nocache b st d).1 ≡ record (view stack queue ep d) {
        given = d.given ++ (record { buf = b; status = st } ∷ []);
      }
  unfolding submit
  submit-view ep b st d =
      laws.submit_view ep b st
        (record d { given = d.given ++ (record { buf = b; status = st } ∷ []) })

  pub put-push :
      (ep b : ℕ) (d : Dev Core Hw)
      → view stack queue ep (on_core (stack.buf_put ep b) d) ≡ push b (view stack queue ep d)
  put-push ep b d = rw (laws.put_queue ep b d.core, laws.put_busy ep b d.core) refl

  -- A buffer is added to the queue, and offered.
  pub put_feed-offer :
      (ep b : ℕ) (d : Dev Core Hw)
      → let p : Dev Core Hw = on_core (stack.buf_put ep b) d in
        view stack queue ep (ep_try_feed stack usb nocache ep p).1
        ≡ offer (answer ep p) (push b (view stack queue ep d))
  put_feed-offer ep b d =
      let p = on_core (stack.buf_put ep b) d in
      ep_try_feed-offer ep p ∙ ap (offer (answer ep p)) (put-push ep b d)
