-- ===== src/Udc/Queue.antt =====
-- The abstract view of an endpoint of drivers/usb/udc/udc_hpmicro.c: a queue of buffers of which the
-- controller works on the first. Sequences of calls are lists of operations.
pub mod Offer
pub mod Refines
pub mod Run
use hpm_support.Prelude.{
  ℕ, ◌≡◌, Bool, true, false, ◌||◌, Option, none, some, List, [], ◌∷◌, ◌++◌, is_empty, map,
  if◌then◌else◌,
}
use hpm_support.Errno.{Status, success}
use hpm_support.Udc.Types.{Buf, Event, Given, Dev}
use hpm_support.Udc.Hal.{Stack, Usb}
use hpm_support.Udc.Isr.{finish}
use hpm_support.Udc.Endpoint.{ep_enqueue}

pub record View : Type 0 where
  pub queue : List ℕ
  pub busy : Bool
  pub halted : Bool
  pub given : List Given

-- A buffer is added; the first is given back; the first is offered to the controller, which answers
-- whether it takes it.
abbrev pub push : ℕ → View → View
push b v = record v { queue = v.queue ++ (b ∷ []) }

abbrev pub pop : View → View
pop v = elim v.queue [
  | [] ↦ record v { busy = false }
  | b ∷ q ↦ record {
    queue = q;
    busy = false;
    halted = v.halted;
    given = v.given ++ (record { buf = b; status = success } ∷ []);
  }
]

abbrev pub offer : Bool → View → View
offer answer v = if v.busy || is_empty v.queue then v else record v { busy = answer }

-- The buffers given back, and those in the queue
abbrev pub history : View → List ℕ
history v = map (λ g. Given.buf g) v.given ++ v.queue

abbrev pub first : List ℕ → Option ℕ
first [] = none
first (b ∷ q) = some b

abbrev pub rest : List ℕ → List ℕ
rest [] = []
rest (b ∷ q) = q

module _ {Core Hw : Type 0} (stack : Stack Core Hw) (queue : ℕ → Core → List ℕ) where
  abbrev pub view : ℕ → Dev Core Hw → View
  view ep d = record {
    queue = queue ep d.core;
    busy = stack.is_busy ep d.core;
    halted = d.halted ep;
    given = d.given;
  }

-- What Zephyr documents of the queues: `queue` is what an endpoint's queue holds, the flag is what
-- was set last, and the heap and the events touch neither. The application gets its events through a
-- queue of messages, so it does not run in the call.
pub record QueueLaws {Core Hw : Type 0} (stack : Stack Core Hw) (queue : ℕ → Core → List ℕ)
    : Type 0 where
  pub peek_lem : (ep : ℕ) (c : Core) → stack.buf_peek ep c ≡ first (queue ep c)
  pub get_lem : (ep : ℕ) (c : Core) → (stack.buf_get ep c).0 ≡ first (queue ep c)
  pub get_queue : (ep : ℕ) (c : Core) → queue ep (stack.buf_get ep c).1 ≡ rest (queue ep c)
  pub put_queue : (ep b : ℕ) (c : Core) → queue ep (stack.buf_put ep b c) ≡ queue ep c ++ (b ∷ [])
  pub put_busy :
      (ep b : ℕ) (c : Core) → stack.is_busy ep (stack.buf_put ep b c) ≡ stack.is_busy ep c
  pub busy_lem : (ep : ℕ) (v : Bool) (c : Core) → stack.is_busy ep (stack.set_busy ep v c) ≡ v
  pub busy_queue : (ep : ℕ) (v : Bool) (c : Core) → queue ep (stack.set_busy ep v c) ≡ queue ep c
  pub alloc_view :
      (ep n : ℕ) (c : Core)
      → (queue ep (stack.heap_alloc n c).1 ≡ queue ep c)
        × (stack.is_busy ep (stack.heap_alloc n c).1 ≡ stack.is_busy ep c)
  pub free_view :
      (ep p : ℕ) (c : Core)
      → (queue ep (stack.heap_free p c) ≡ queue ep c)
        × (stack.is_busy ep (stack.heap_free p c) ≡ stack.is_busy ep c)
  pub submit_view :
      (ep b : ℕ) (st : Status) (d : Dev Core Hw)
      → view stack queue ep (stack.submit_ep_event b st d).1 ≡ view stack queue ep d
  pub event_view :
      (ep : ℕ) (e : Event) (st : Status) (d : Dev Core Hw)
      → view stack queue ep (stack.submit_event e st d) ≡ view stack queue ep d

-- The calls for an endpoint: the application's, and the end of a transfer
pub data Op : Type 0 where
  enqueue : ℕ → Op
  complete : ℕ → ℕ → Op

abbrev pub enqueued : List Op → List ℕ
enqueued [] = []
enqueued (enqueue b ∷ ops) = b ∷ enqueued ops
enqueued (complete hpm_buf n ∷ ops) = enqueued ops

module _ {Core Hw : Type 0} (stack : Stack Core Hw) (usb : Usb Hw) (nocache : Bool) where
  abbrev pub step : ℕ → Op → Dev Core Hw → Dev Core Hw
  step ep (enqueue b) d = (ep_enqueue stack usb nocache ep b d).1
  step ep (complete hpm_buf n) d = finish stack usb nocache ep hpm_buf (some n) d

  abbrev pub run : ℕ → List Op → Dev Core Hw → Dev Core Hw
  run ep [] d = d
  run ep (op ∷ ops) d = run ep ops (step ep op d)
