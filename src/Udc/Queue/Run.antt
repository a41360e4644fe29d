-- ===== src/Udc/Queue/Run.antt =====
-- Runs of an endpoint other than the control endpoint in drivers/usb/udc/udc_hpmicro.c.
use hpm_support.Prelude.{
  append_assoc, append_nil, map-append, ℕ, ◌≡◌, ◌∙◌, refl, ap, sym, ◌==◌, ◌⊎◌, inl, inr, Bool, true,
  false, Option, none, some, List, [], ◌∷◌, ◌++◌, ◌||◌, map, is_empty, if_ind, Bool-cases, ◌%◌,
}
use mathlib.Core.Path.{subst}
use hpm_support.Errno.{Status, success}
use hpm_support.Udc.Types.{Buf, Given, Dev}
use hpm_support.Udc.Hal.{Stack, Usb}
use hpm_support.Udc.Feed.{on_core, is_in, in_source, out_target, start_xfer, ep_try_feed}
use hpm_support.Udc.Control.{control_in, control_out}
use hpm_support.Udc.Endpoint.{ep_enqueue}
use hpm_support.Udc.Queue.{
  View, push, pop, offer, history, view, QueueLaws, Op, enqueue, complete, enqueued, step, run,
}
use hpm_support.Udc.Queue.Offer.{answer, answer_to, put-push, put_feed-offer}
use hpm_support.Udc.Queue.Refines.{Finishes, handler_in-Finishes, handler_out-Finishes}

-- What is not given back is in the queue.
history-offer : (a : Bool) (v : View) → history (offer a v) ≡ history v
history-offer a v = if_ind (λ w. history w ≡ history v) (v.busy || is_empty v.queue) refl refl

history-pop : (v : View) → history (pop v) ≡ history v
history-pop v = go v.queue
  where
    go : (q : List ℕ) → history (pop (record v { queue = q })) ≡ history (record v { queue = q })
    go [] = refl
    go (b ∷ q) =
        let buf : Given → ℕ = λ g. Given.buf g in
        rw (map-append buf v.given (record { buf = b; status = success } ∷ []))
          (append_assoc (map buf v.given) (b ∷ []) q)

history-push : (b : ℕ) (v : View) → history (push b v) ≡ history v ++ (b ∷ [])
history-push b v = sym (append_assoc (map (λ g. Given.buf g) v.given) v.queue (b ∷ []))

-- A view in which the controller works whenever there is a buffer.
abbrev pub IsServed : View → Type 0
IsServed v = (v.busy || is_empty v.queue) ≡ true

IsServed-offer : (v : View) → IsServed (offer true v)
IsServed-offer v = elim (Bool-cases (v.busy || is_empty v.queue)) [
  | inl e ↦ rw e e
  | inr e ↦ rw e refl
]

halted-offer : (a : Bool) (v : View) → (offer a v).halted ≡ v.halted
halted-offer a v = if_ind (λ (w : View). w.halted ≡ v.halted) (v.busy || is_empty v.queue) refl refl

halted-pop : (v : View) → (pop v).halted ≡ v.halted
halted-pop v = go v.queue
  where
    go : (q : List ℕ) → (pop (record v { queue = q })).halted ≡ v.halted
    go [] = refl
    go (b ∷ q) = refl

module _ {Core Hw : Type 0} (stack : Stack Core Hw) (usb : Usb Hw) (nocache : Bool)
    (queue : ℕ → Core → List ℕ) (laws : QueueLaws stack queue) where
  -- The end of a transfer, in either direction
  Ends : ℕ → Dev Core Hw → Dev Core Hw → Type 0
  Ends ep d r =
      Finishes stack usb nocache queue laws ep d r ⊎ (view stack queue ep r ≡ view stack queue ep d)

  complete-Ends :
      (ep hpm_buf n : ℕ) (d : Dev Core Hw)
      → (ep == control_out) ≡ false
      → (ep == control_in) ≡ false
      → Ends ep d (step stack usb nocache ep (complete hpm_buf n) d)
  unfolding Ends
  complete-Ends ep hpm_buf n d o i =
      if_ind (Ends ep d) (is_in ep)
        (handler_in-Finishes stack usb nocache queue laws ep hpm_buf (n % 65536) d i)
        (inl (handler_out-Finishes stack usb nocache queue laws ep hpm_buf (n % 65536) d o))

  Ends-history :
      (ep : ℕ) (d r : Dev Core Hw)
      → Ends ep d r
      → history (view stack queue ep r) ≡ history (view stack queue ep d)
  unfolding Ends
  Ends-history ep d r (inl (e, h)) =
      let v = view stack queue ep d in
      let a = answer stack usb nocache queue laws ep e in
      ap history h ∙ history-offer a (pop v) ∙ history-pop v
  Ends-history ep d r (inr h) = ap history h

  enqueue-history :
      (ep b : ℕ) (d : Dev Core Hw)
      → history (view stack queue ep (step stack usb nocache ep (enqueue b) d))
        ≡ history (view stack queue ep d) ++ (b ∷ [])
  unfolding ep_enqueue
  enqueue-history ep b d =
      let v = view stack queue ep d in
      let p = on_core (stack.buf_put ep b) d in
      let a = answer stack usb nocache queue laws ep p in
      if_ind
        (λ (r : Status × Dev Core Hw). history (view stack queue ep r.1) ≡ history v ++ (b ∷ []))
        (d.halted ep) (ap history (put-push stack usb nocache queue laws ep b d) ∙ history-push b v)
        (ap history (put_feed-offer stack usb nocache queue laws ep b d)
          ∙ history-offer a (push b v)
          ∙ history-push b v)

  -- On an endpoint other than the control endpoint, for any sequence of added buffers and ended
  -- transfers, the buffers given back, in their order, and then those in the queue are the ones of the
  -- start and then the ones added, in their order: none is lost, given back twice or overtaken.
  pub run-history :
      (ep : ℕ) (ops : List Op) (d : Dev Core Hw)
      → (ep == control_out) ≡ false
      → (ep == control_in) ≡ false
      → history (view stack queue ep (run stack usb nocache ep ops d))
        ≡ history (view stack queue ep d) ++ enqueued ops
  run-history ep [] d o i = sym (append_nil (history (view stack queue ep d)))
  run-history ep (enqueue b ∷ ops) d o i =
      let h = history (view stack queue ep d) in
      run-history ep ops (step stack usb nocache ep (enqueue b) d) o i
      ∙ ap (λ l. l ++ enqueued ops) (enqueue-history ep b d)
      ∙ append_assoc h (b ∷ []) (enqueued ops)
  run-history ep (complete hpm_buf n ∷ ops) d o i =
      let e = step stack usb nocache ep (complete hpm_buf n) d in
      run-history ep ops e o i
      ∙ ap (λ l. l ++ enqueued ops) (Ends-history ep d e (complete-Ends ep hpm_buf n d o i))

  -- The invariant of an endpoint that is not halted
  IsLive : View → Type 0
  IsLive v = IsServed v × (v.halted ≡ false)

  IsLive-offer : (v : View) → v.halted ≡ false → IsLive (offer true v)
  unfolding IsLive
  IsLive-offer v h = (IsServed-offer v, halted-offer true v ∙ h)

  module _ (accepts : (ep p n : ℕ) (hw : Hw) → (usb.edpt_xfer ep p n hw).0 ≡ true) where
    start_xfer-accepts :
        (ep b : ℕ) (d : Dev Core Hw) → (start_xfer stack usb nocache ep b d).0 ≡ true
    unfolding start_xfer
    start_xfer-accepts ep b d =
        let len = Buf.len (d.bufs b) in
        let room = stack.tailroom (d.bufs b) in
        let (p, e) = in_source stack usb nocache b d in
        let (q, f) = out_target stack usb nocache b d in
        if_ind (λ (r : Bool × Dev Core Hw). r.0 ≡ true) (is_in ep) (accepts ep p len e.hw)
          (accepts ep q room f.hw)

    answer-accepts : (ep : ℕ) (d : Dev Core Hw) → answer stack usb nocache queue laws ep d ≡ true
    answer-accepts ep d = go (stack.buf_peek ep d.core)
      where
        go : (o : Option ℕ) → answer_to stack usb nocache queue laws ep o d ≡ true
        go none = refl
        go (some b) = start_xfer-accepts ep b (on_core (stack.set_busy ep true) d)

    IsLive-answer :
        (ep : ℕ) (d : Dev Core Hw) (v w : View)
        → w ≡ offer (answer stack usb nocache queue laws ep d) v
        → v.halted ≡ false
        → IsLive w
    IsLive-answer ep d v w e h = rw (e, answer-accepts ep d) (IsLive-offer v h)

    step-enqueue :
        (ep b : ℕ) (d : Dev Core Hw)
        → d.halted ep ≡ false
        → step stack usb nocache ep (enqueue b) d
          ≡ (ep_try_feed stack usb nocache ep (on_core (stack.buf_put ep b) d)).1
    unfolding ep_enqueue
    step-enqueue ep b d h = rw (h, step) refl

    step-IsLive :
        (ep : ℕ) (op : Op) (d : Dev Core Hw)
        → (ep == control_out) ≡ false
        → (ep == control_in) ≡ false
        → IsLive (view stack queue ep d)
        → IsLive (view stack queue ep (step stack usb nocache ep op d))
    unfolding IsLive Ends
    step-IsLive ep (enqueue b) d o i h =
        let p = on_core (stack.buf_put ep b) d in
        let v = push b (view stack queue ep d) in
        rw (step-enqueue ep b d h.1) (
          IsLive-answer ep p v (view stack queue ep (ep_try_feed stack usb nocache ep p).1)
            (put_feed-offer stack usb nocache queue laws ep b d) h.1)
    step-IsLive ep (complete hpm_buf n) d o i h =
        let v = view stack queue ep d in
        let r = step stack usb nocache ep (complete hpm_buf n) d in
        elim (complete-Ends ep hpm_buf n d o i) [
          | inl f ↦ IsLive-answer ep f.0 (pop v) (view stack queue ep r) f.1 (halted-pop v ∙ h.1)
          | inr e ↦ subst IsLive (sym e) h
        ]

    -- A controller that takes every transfer works on an endpoint, other than the control endpoint
    -- and not halted, whenever the queue is not empty, after any sequence of added buffers and ended
    -- transfers: no buffer waits for a transfer that has not been started.
    pub run-IsServed :
        (ep : ℕ) (ops : List Op) (d : Dev Core Hw)
        → (ep == control_out) ≡ false
        → (ep == control_in) ≡ false
        → d.halted ep ≡ false
        → IsServed (view stack queue ep d)
        → IsServed (view stack queue ep (run stack usb nocache ep ops d))
    unfolding IsLive
    run-IsServed ep ops d o i h s = (go ops d (s, h)).0
      where
        go :
            (ops : List Op) (d : Dev Core Hw)
            → IsLive (view stack queue ep d)
            → IsLive (view stack queue ep (run stack usb nocache ep ops d))
        go [] d l = l
        go (op ∷ ops) d l = go ops (step stack usb nocache ep op d) (step-IsLive ep op d o i l)
