-- ===== src/Mcan/Tests.antt =====
-- Runs of drivers/can/mcan_hpmicro.c on a simulated controller and kernel, and the instances of its
-- theorems.
use hpm_support.Prelude.{
  ℕ, zero, suc, ◌+◌, ◌-◌, ◌≡◌, refl, Bool, true, false, not, none, some, List, [], ◌∷◌, arith, ltb,
  lt→ltb, ◌==◌, if◌then◌else◌, min, word_and,
}
use hpm_support.Errno.{success, err, eio}
use hpm_support.Zephyr.{no_wait}
use hpm_support.Can.Types.{Frame, CanFilter, normal, tx_done}
use hpm_support.Can.Hal.{taken, locked}
use hpm_support.Mcan.Types.{RxMessage, TxFrame, Config, Table, McanData, Dev}
use hpm_support.Mcan.Hal.{Hal, Os, OsLaws, put_tx_sem, put_tx_fin_sem, put_tx_mutex, put_inst_mutex}
use hpm_support.Mcan.Filter.{no_filter, remove_rx_filter, get_first_filter_index}
use hpm_support.Mcan.Filter.Alias.{IsPlaced, Fits, Dropped, remove_rx_filter-both}
use hpm_support.Mcan.State.{sees_error, get_state}
use hpm_support.Mcan.State.Truncated.{HasNoLowBit}
use hpm_support.Mcan.Rx.{dispatch}
use hpm_support.Mcan.Rx.Remote.{Op, add, remove, run, run-remote}
use hpm_support.Mcan.Tx.{validate_send, convert_frame, send}
use hpm_support.Mcan.Tx.Stuck.{StaysUnsent, send-stuck}
use hpm_support.Mcan.Isr.{handle_transmit}
use hpm_support.Mcan.Isr.Complete.{CanSend, send-handle_transmit}

abbrev silent : RxMessage
silent = record {
  std_id = 0;
  ext_id = 0;
  use_ext_id = false;
  canfd_frame = false;
  rtr = false;
  bitrate_switch = false;
  dlc = 0;
  payload = [];
}

abbrev default_config : Config
default_config = record {
  mode = normal;
  enable_canfd = false;
  baudrate = 1000000;
  baudrate_fd = 0;
  ext_elem_count = 0;
  std_elem_count = 0;
}

-- The controller is the list of the frames that it was given. It refuses the identifier 99, and is
-- bus-off.
abbrev hal : Hal (List TxFrame)
hal = record {
  apply_pinctrl = λ w. (none, w);
  buf_in_ahb_ram = false;
  set_msg_buf_attr = λ w. (true, w);
  default_config = default_config;
  set_up_clock = λ w. w;
  clock_freq = λ w. 80000000;
  irq_config = λ w. w;
  init = λ c e s f w. (true, w);
  deinit = λ w. w;
  set_mon = λ w. w;
  set_mon_test = λ w. w;
  set_loopback = λ w. w;
  clear_mon_test = λ w. w;
  read_rxfifo = λ i w. (silent, w);
  read_rxbuf = λ i w. (silent, w);
  rxbuf_size = 2;
  rxbuf_available = λ i w. false;
  clear_rxbuf_available = λ i w. w;
  interrupt_flags = λ w. 33554432;
  clear_interrupt_flags = λ f w. w;
  int_rxfifo0_new_msg = 1;
  int_rxfifo1_new_msg = 16;
  int_msg_store_to_rxbuf = 524288;
  event_transmit = 512;
  event_error = 33554432;
  in_bus_off_state = λ w. true;
  in_warning_state = λ w. false;
  in_error_passive_state = λ w. false;
  transmit_error_count = λ w. 255;
  receive_error_count = λ w. 0;
  transmit_via_txbuf = λ f w. (not (f.std_id == 99), f ∷ w);
  dlc_to_bytes = λ n. min n 8;
  max_dlc = 8;
  max_dlc_fd = 15;
  max_dlen = 8;
  shift_one = λ i. if i == 0 then 1 else 2;
}

abbrev take_one : {A : Type 0} → ℕ → A → A → Bool × A
take_one n gone stay = if ltb 0 n then (true, gone) else (false, stay)

abbrev os : Os (List TxFrame)
os = record {
  sem_init = λ c l. record { count = c; limit = l };
  mutex_init = record { lock_count = 0 };
  sem_give = λ s. record s { count = min (s.count + 1) s.limit };
  mutex_unlock = λ m. record m { lock_count = m.lock_count - 1 };
  take_tx_sem = λ t d. take_one d.drv.tx_sem.count (put_tx_sem (taken d.drv.tx_sem) d) d;
  lock_tx_mutex = λ t d. (true, put_tx_mutex (locked d.drv.tx_mutex) d);
  take_tx_fin_sem =
      λ t d. take_one d.drv.tx_fin_sem.count (put_tx_fin_sem (taken d.drv.tx_fin_sem) d) d;
  lock_inst_mutex = λ t d. (true, put_inst_mutex (locked d.drv.inst_mutex) d);
  spin = λ d. d;
}

os-laws : OsLaws os
os-laws = record {
  sem_init_lem = λ c l. refl;
  sem_give_lem = λ s. refl;
  mutex_unlock_lem = λ m. refl;
  take_tx_sem_lem = λ t d h. rw (lt→ltb 0 d.drv.tx_sem.count h);
  lock_tx_mutex_lem = λ t d h. refl;
  take_tx_fin_sem_lem = λ t d h. rw (lt→ltb 0 d.drv.tx_fin_sem.count h);
  lock_inst_mutex_lem = λ t d h. refl;
}

take_tx_sem-unsent :
    (n : ℕ) (a b : Dev (List TxFrame))
    → a.has_sent_out ≡ false
    → b.has_sent_out ≡ false
    → (take_one n a b).1.has_sent_out ≡ false
take_tx_sem-unsent zero a b h k = k
take_tx_sem-unsent (suc n) a b h k = rw (lt→ltb 0 (suc n) (omega arith)) h

os-StaysUnsent : StaysUnsent hal os
os-StaysUnsent = record {
  spin = λ d h. h;
  take_tx_sem = λ t d h. take_tx_sem-unsent d.drv.tx_sem.count _ d h h;
  lock_tx_mutex = λ t d h. h;
}

-- A table with one filter at slot 0.
abbrev one_filter : Table
one_filter = record {
  filter_count = 1;
  filters_index = 0 ∷ 0 ∷ [];
  filters = no_filter ∷ no_filter ∷ [];
  rx_cb = some 7 ∷ none ∷ [];
  rx_cb_arg = none ∷ none ∷ [];
}

abbrev fresh_data : McanData
fresh_data = record {
  mode = record { loopback = false; listenonly = false; fd = false; others = 0 };
  config = default_config;
  ext = one_filter;
  std = one_filter;
  filter_rtr = 0;
  filter_rtr_mask = 0;
  inst_mutex = record { lock_count = 0 };
  tx_mutex = record { lock_count = 0 };
  tx_sem = record { count = 32; limit = 32 };
  tx_fin_sem = record { count = 1; limit = 1 };
  tx_fin_cb = none;
  tx_fin_cb_arg = none;
  state_change_cb = none;
  state_change_cb_data = none;
  started = true;
}

abbrev fresh : Dev (List TxFrame)
fresh = record { drv = fresh_data; has_sent_out = true; hw = []; calls = [] }

-- A standard frame of two bytes.
abbrev frame : ℕ → Frame
frame id = record {
  id = id;
  dlc = 2;
  flags = record { ide = false; rtr = false; fdf = false; brs = false; esi = false };
  payload = 1 ∷ 2 ∷ [];
}

frame_valid : validate_send hal true fresh_data (frame 5) ≡ success
unfolding validate_send
frame_valid = refl

refused_valid : validate_send hal true fresh_data (frame 99) ≡ success
unfolding validate_send
refused_valid = refl

fresh-CanSend : CanSend hal os os-laws true (frame 5) fresh
unfolding validate_send get_state convert_frame sees_error word_and
fresh-CanSend = record {
  sent = refl;
  started = refl;
  valid = frame_valid;
  on_bus = refl;
  sem = omega arith;
  sem_limit = omega arith;
  mutex = refl;
  taken_up = refl;
}

send-handle_transmit_example :
    (d : Dev (List TxFrame)) × (send hal os true 1 (frame 5) no_wait (some 3) none fresh
      ≡ some (success, d))
    × (let r = handle_transmit hal os 512 d in
        (r.calls ≡ tx_done 3 none ∷ [])
        × (r.has_sent_out ≡ true)
        × (r.drv.tx_sem.count ≡ 32)
        × (r.drv.tx_mutex.lock_count ≡ 0))
unfolding word_and
send-handle_transmit_example =
    send-handle_transmit hal os os-laws true 0 (frame 5) no_wait 3 512 none fresh fresh-CanSend refl

-- The device after a frame that the controller has refused.
abbrev refused : Dev (List TxFrame)
refused = record {
  drv = record fresh_data { tx_sem = record { count = 31; limit = 32 }; tx_fin_cb = some 3 };
  has_sent_out = false;
  hw = convert_frame hal (frame 99) ∷ [];
  calls = [];
}

send-refused : send hal os true 1 (frame 99) no_wait (some 3) none fresh ≡ some (err eio, refused)
unfolding send validate_send get_state convert_frame sees_error word_and
send-refused = refl

send-stuck_example : send hal os true 1000 (frame 5) no_wait (some 4) none refused ≡ none
unfolding validate_send
send-stuck_example =
    send-stuck hal os true 0 (frame 99) (frame 5) no_wait no_wait (some 3) none (some 4) none fresh
      refused eio os-StaysUnsent refl refl refused_valid send-refused frame_valid refl 1000

one_filter-IsPlaced : IsPlaced one_filter
one_filter-IsPlaced = record { placed = λ k h. let e : k ≡ 0 = omega arith in rw e }

one_filter-Fits : Fits one_filter
one_filter-Fits = record { indices = omega arith; elements = omega arith }

remove_rx_filter-both_example :
    Dropped 0 one_filter (remove_rx_filter hal os 0 fresh).drv.ext
    × Dropped 0 one_filter (remove_rx_filter hal os 0 fresh).drv.std
remove_rx_filter-both_example =
    remove_rx_filter-both hal os os-laws 0 fresh one_filter-IsPlaced one_filter-IsPlaced
      one_filter-Fits one_filter-Fits (omega arith) (omega arith) refl

abbrev any_filter : CanFilter
any_filter = record { id = 0; mask = 0; ide = false; rtr = false; others = false }

abbrev ops : List Op
ops = add (some 9) none any_filter ∷ remove 0 ∷ []

abbrev remote : RxMessage
remote = record silent { rtr = true }

run-remote_example :
    dispatch hal
      (get_first_filter_index remote (run hal os ops fresh).drv)
      remote
      (run hal os ops fresh)
    ≡ run hal os ops fresh
run-remote_example =
    run-remote hal os ops fresh remote (λ d h. record { rtr = h.rtr; rtr_mask = h.rtr_mask })
      (record { rtr = refl; rtr_mask = refl }) refl

event_error-HasNoLowBit : HasNoLowBit 33554432
event_error-HasNoLowBit zero h = refl
event_error-HasNoLowBit (suc zero) h = refl
event_error-HasNoLowBit (suc (suc zero)) h = refl
event_error-HasNoLowBit (suc (suc (suc zero))) h = refl
event_error-HasNoLowBit (suc (suc (suc (suc zero)))) h = refl
event_error-HasNoLowBit (suc (suc (suc (suc (suc zero))))) h = refl
event_error-HasNoLowBit (suc (suc (suc (suc (suc (suc zero)))))) h = refl
event_error-HasNoLowBit (suc (suc (suc (suc (suc (suc (suc zero))))))) h = refl
event_error-HasNoLowBit (suc (suc (suc (suc (suc (suc (suc (suc i)))))))) h = absurd (omega arith)
