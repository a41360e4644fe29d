-- ===== src/Udc/Tests.antt =====
-- Runs of drivers/usb/udc/udc_hpmicro.c on a simulated controller, and the instances of its theorems.
use hpm_support.Prelude.{
  ℕ, zero, suc, ◌+◌, ◌-◌, ◌≡◌, ◌==◌, ◌*◌, refl, Bool, true, false, some, List, [], ◌∷◌, ◌++◌, arith,
  map,
}
use hpm_support.Errno.{success, err, ebusy}
use hpm_support.Udc.Types.{Given, Qtd, Setup, Flags, Dev}
use hpm_support.Udc.Hal.{Stack, Usb}
use hpm_support.Udc.Feed.{
  at, on_core, ep_feed, ep_try_feed, start_xfer, is_in, nocache_alloc, nocache_free,
}
use hpm_support.Udc.Handlers.{handler_in, handler_zlt, take_buf, handler_non_ctrl_in}
use hpm_support.Udc.Control.{control_out, submit, ctrl_feed_dout}
use hpm_support.Udc.Control.Dangling.{ctrl_feed_dout-err}
use hpm_support.Udc.Isr.{transfer_length, complete_index}
use hpm_support.Udc.Isr.Chain.{transfer_length-moved}
use hpm_support.Udc.Isr.Failed.{complete_index-undone}
use hpm_support.Udc.Endpoint.{ep_enqueue}
use hpm_support.Udc.Queue.{QueueLaws, Op, enqueue, complete, history, view, run, first, rest}
use hpm_support.Udc.Queue.Run.{IsServed, run-history, run-IsServed}

record Sim : Type 0 where
  queues : ℕ → List ℕ
  busy : ℕ → Bool

abbrev no_setup : Setup
no_setup = record {
  at = 0;
  standard = false;
  to_device = false;
  set_address = false;
  value = 0;
  length = 0;
}

abbrev no_flags : Flags
no_flags = record { ue = false; uee = false; sle = false; pce = false; ure = false }

-- The controller: the lengths of the transfers so far, the latest first, and whether it takes one.
record Ctl : Type 0 where
  lens : List ℕ
  takes : Bool

abbrev done_qtd : ℕ → Qtd
done_qtd next = record {
  halted = false;
  xact_err = false;
  buffer_err = false;
  active = false;
  expected_bytes = 512;
  total_bytes = 12;
  next = next;
}

abbrev qtds : ℕ → Qtd
qtds zero = done_qtd 1
qtds (suc zero) = done_qtd 9
qtds (suc (suc n)) = record (done_qtd 9) { halted = true }

abbrev stack : Stack Sim Ctl
stack = record {
  is_busy = λ ep c. c.busy ep;
  set_busy = λ ep v c. record c { busy = at ep v c.busy };
  buf_peek = λ ep c. first (c.queues ep);
  buf_get =
      λ ep c. (first (c.queues ep), record c { queues = at ep (rest (c.queues ep)) c.queues });
  buf_put = λ ep b c. record c { queues = at ep (c.queues ep ++ (b ∷ [])) c.queues };
  buf_get_all = λ ep c. (first (c.queues ep), record c { queues = at ep [] c.queues });
  tailroom = λ b. b.room;
  tail = λ b. b.addr + b.len;
  add = λ n b. record b { len = b.len + n; room = b.room - n };
  unref = λ b d. d;
  has_zlp = λ b. b.zlp;
  clear_zlp = λ b. record b { zlp = false };
  set_setup = λ b. record b { setup = true };
  heap_alloc = λ n c. (4096, c);
  heap_free = λ p c. c;
  ctrl_alloc = λ ep n d. (some 7, d);
  ctrl_update_stage = λ b d. d;
  ctrl_stage_is = λ s c. false;
  data_stage_length = λ b d. 0;
  ctrl_submit_s_in_status = λ d. (success, d);
  ctrl_submit_s_status = λ d. (success, d);
  ctrl_submit_status = λ b d. (success, d);
  ctrl_submit_s_out_status = λ b d. (success, d);
  submit_ep_event = λ b st d. (success, d);
  submit_event = λ e st d. d;
  set_suspended = λ v c. c;
  ep_disable_internal = λ ep d. d;
  ep_enable_internal = λ ep mps d. (success, d);
  lock_internal = λ d. (success, d);
  unlock_internal = λ d. (success, d);
  mutex_init = λ c. c;
  register_ep = λ ep caps c. (success, c);
  set_caps = λ rwup mps0 hs c. c;
}

abbrev usb : Usb Ctl
usb = record {
  edpt_xfer = λ ep p n hw. (true, record hw { lens = n ∷ hw.lens });
  edpt_stall = λ ep hw. hw;
  edpt_clear_stall = λ ep hw. hw;
  edpt_open = λ cfg hw. hw;
  edpt_close = λ ep hw. hw;
  set_address = λ a hw. hw;
  status_flags = λ hw. no_flags;
  interrupts = λ hw. no_flags;
  clear_status_flags = λ f hw. hw;
  bus_reset = λ n hw. hw;
  suspend_status = λ hw. false;
  get_address = λ hw. 0;
  port_ccs = λ hw. true;
  port_speed = λ hw. 2;
  edpt_complete_status = λ hw. 0;
  clear_edpt_complete_status = λ s hw. hw;
  setup_status = λ hw. 0;
  clear_setup_status = λ s hw. hw;
  attached_qtd = λ i hw. i;
  attached_buffer = λ i hw. 4096;
  setup_request = λ hw. no_setup;
  qtd = λ p hw. qtds p;
  next_invalid = 9;
  max_qhd_count = 16;
  mps0_64 = 3;
  init = λ f hw. hw;
  deinit = λ hw. hw;
  irq_enable = λ hw. hw;
  irq_disable = λ hw. hw;
  set_run = λ v hw. hw;
  clock_add_to_group = λ hw. hw;
  apply_pinctrl = λ hw. hw;
}

at_self {ℓ} : {A : Type ℓ} (k : ℕ) (v : A) (f : ℕ → A) → at k v f k ≡ v
at_self k v f = let e : (k == k) ≡ true = ground arith in rw e refl

laws : QueueLaws stack (λ ep c. c.queues ep)
laws = record {
  peek_lem = λ ep c. refl;
  get_lem = λ ep c. refl;
  get_queue = λ ep c. at_self ep (rest (c.queues ep)) c.queues;
  put_queue = λ ep b c. at_self ep (c.queues ep ++ (b ∷ [])) c.queues;
  put_busy = λ ep b c. refl;
  busy_lem = λ ep v c. at_self ep v c.busy;
  busy_queue = λ ep v c. refl;
  alloc_view = λ ep n c. (refl, refl);
  free_view = λ ep p c. (refl, refl);
  submit_view = λ ep b st d. refl;
  event_view = λ ep e st d. refl;
}

-- Ten bytes in every buffer and room for 90 more
abbrev start : Dev Sim Ctl
start = record {
  core = record { queues = λ ep. []; busy = λ ep. false };
  hw = record { lens = []; takes = true };
  bufs = λ b. record { addr = b * 100; len = 10; room = 90; zlp = false; setup = false };
  mem = λ a. 0;
  halted = λ ep. false;
  enabled = λ ep. true;
  given = [];
}

-- Two buffers for the endpoint 1 to the host, and the end of two transfers and an empty one
abbrev ops : List Op
ops = enqueue 5 ∷ enqueue 6 ∷ complete 4096 10 ∷ complete 4096 10 ∷ complete 4096 0 ∷ enqueue 8 ∷ []

run-lens : Ctl.lens (Dev.hw (run stack usb true 129 ops start)) ≡ 10 ∷ 10 ∷ 10 ∷ []
unfolding ep_enqueue ep_try_feed ep_feed start_xfer is_in nocache_alloc nocache_free handler_in
    handler_zlt take_buf handler_non_ctrl_in submit
run-lens = refl

run-given : map (λ g. Given.buf g) (Dev.given (run stack usb true 129 ops start)) ≡ 5 ∷ 6 ∷ []
unfolding ep_enqueue ep_try_feed ep_feed start_xfer is_in nocache_alloc nocache_free handler_in
    handler_zlt take_buf handler_non_ctrl_in submit
run-given = refl

run-history_example :
    history (view stack (λ ep c. c.queues ep) 129 (run stack usb true 129 ops start))
    ≡ 5 ∷ 6 ∷ 8 ∷ []
run-history_example = run-history stack usb true (λ ep c. c.queues ep) laws 129 ops start refl refl

run-IsServed_example :
    IsServed (view stack (λ ep c. c.queues ep) 129 (run stack usb true 129 ops start))
run-IsServed_example =
    run-IsServed stack usb true (λ ep c. c.queues ep) laws (λ ep p n hw. refl) 129 ops start refl
      refl refl refl

-- Two descriptors of 500 bytes each
transfer_length-moved_example :
    transfer_length stack usb true 2 0 0 (Dev.hw start) ≡ some (some 1000)
transfer_length-moved_example =
    transfer_length-moved stack usb true 2 0 (done_qtd 1 ∷ done_qtd 9 ∷ []) (Dev.hw start)
      (refl, refl, (refl, refl)) (omega arith, omega arith, (omega arith, omega arith, tt))
      (omega arith) (omega arith)

-- The descriptor of the index 2, the endpoint 1 from the host, has failed.
abbrev working : Dev Sim Ctl
working = record start { core = record { queues = λ ep. 5 ∷ []; busy = λ ep. true } }

complete_index-undone_example :
    (complete_index stack usb true 1 2 2 working ≡ some working)
    × (ep_enqueue stack usb true 1 6 working
        ≡ (success, on_core (λ c. record c { queues = at 1 (5 ∷ 6 ∷ []) c.queues }) working))
complete_index-undone_example =
    complete_index-undone stack usb true (λ ep c. c.queues ep) 1 2 2 6 (qtds 2 ∷ []) working laws
      refl (refl, refl) (omega arith, omega arith, tt) (omega arith) (omega arith) refl refl

-- The control endpoint works on another buffer.
ctrl_feed_dout-err_example :
    (r : Dev Sim Ctl) × (ctrl_feed_dout stack usb true 64 working ≡ (err ebusy, r))
    × (Sim.queues (Dev.core r) control_out ≡ 5 ∷ 7 ∷ [])
unfolding ctrl_feed_dout ep_feed
ctrl_feed_dout-err_example =
    ctrl_feed_dout-err stack usb true (λ ep c. c.queues ep) 7 64 working working ebusy laws refl
      refl
