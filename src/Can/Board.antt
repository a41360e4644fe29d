-- ===== src/Can/Board.antt =====
-- A simulated controller and kernel for the tests of drivers/can/can_hpmicro.c: a receive queue, a
-- log of what is sent, and a waiter that lets the completion interrupt run.
use hpm_support.Prelude.{
  ℕ, suc, ◌+◌, ◌-◌, ◌<◌, ◌≡◌, refl, Bool, true, false, none, List, [], ◌∷◌, arith, ltb, lt→ltb,
  length, min, if◌then◌else◌, replicate,
}
use hpm_support.Zephyr.{forever}
use hpm_support.Can.Types.{
  RxBuf, TxBuf, TxRxFlags, ErrorFlags, Config, CanData, Dev, normal, error_active,
}
use hpm_support.Can.Hal.{
  Hal, Os, OsLaws, TxStatus, taken, locked, put_tx_sem, put_tx_mutex, put_tx_fin_sem,
  put_inst_mutex,
}
use hpm_support.Can.Filter.{no_filter}
use hpm_support.Can.Isr.{no_event, tc_event_handler}
use hpm_support.Can.Isr.Drain.{RxQueue}
use hpm_support.Can.Tx.Idle.{none_left, one_left, unlocked}

pub record Board : Type 0 where
  pub queue : List RxBuf
  pub inits : ℕ
  pub sent : List TxBuf
  pub words : List (ℕ × ℕ)
  pub events : TxRxFlags
  pub errors : ErrorFlags

abbrev pub empty_buf : RxBuf
empty_buf = record {
  id = 0;
  dlc = 0;
  extend_id = false;
  remote_frame = false;
  canfd_frame = false;
  bitrate_switch = false;
  payload = [];
}

abbrev pub no_errors : ErrorFlags
no_errors = record { warning_limit = false; passive_mode_active = false; others = false }

abbrev pub default_config : Config
default_config = record {
  mode = normal;
  enable_canfd = false;
  baudrate = 1000000;
  baudrate_fd = 0;
  filter_list_num = 0;
  irq_txrx_enable_mask = no_event;
  irq_error_enable_mask = record { bus_error = false; arbitration_lost = false; passive = false };
}

abbrev pub read_queue : List RxBuf → Board → RxBuf × Board
read_queue [] b = (empty_buf, b)
read_queue (m ∷ ms) b = (m, record b { queue = ms })

abbrev pub hal : Hal Board
hal = record {
  apply_pinctrl = λ b. (none, b);
  set_source_divider = λ b. b;
  clock_freq = λ b. 80000000;
  irq_config = λ b. b;
  default_config = default_config;
  init = λ c l f b. (true, record b { inits = suc b.inits });
  deinit = λ b. b;
  set_node_mode = λ m b. b;
  read_message = λ b. read_queue b.queue b;
  data_available = λ b. ltb 0 (length b.queue);
  tx_rx_flags = λ b. b.events;
  clear_tx_rx_flags = λ e b. record b { events = no_event };
  error_flags = λ b. b.errors;
  clear_error_flags = λ e b. record b { errors = no_errors };
  in_bus_off = λ b. false;
  transmit_error_count = λ b. 3;
  receive_error_count = λ b. 5;
  stb_empty = λ b. true;
  tx_word = λ t k. t.id + k;
  write_tbuf = λ k w b. record b { words = (k, w) ∷ b.words };
  select_tx_buffer = λ s b. b;
  switch_to_next_tx_buffer = λ b. b;
  start_all_message_transmit = λ b. b;
  send_message_nonblocking = λ t b. (TxStatus.sent, record b { sent = t ∷ b.sent });
  dlc_to_bytes = λ n. min n 8;
  max_dlc = 8;
  max_dlc_fd = 15;
  uninit_payload = λ b. replicate 64 170;
  uninit_state = λ b. error_active;
}

abbrev take_one : {A : Type 0} → ℕ → A → A → Bool × A
take_one n gone stay = if ltb 0 n then (true, gone) else (false, stay)

abbrev base_os : Os Board
base_os = record {
  sem_init = λ c l. record { count = c; limit = l };
  mutex_init = record { lock_count = 0 };
  sem_give = λ s. record s { count = min (s.count + 1) s.limit };
  mutex_unlock = λ m. record m { lock_count = m.lock_count - 1 };
  take_tx_sem = λ t d. take_one d.drv.tx_sem.count (put_tx_sem (taken d.drv.tx_sem) d) d;
  lock_tx_mutex = λ t d. (true, put_tx_mutex (locked d.drv.tx_mutex) d);
  take_tx_fin_sem =
      λ t d. take_one d.drv.tx_fin_sem.count (put_tx_fin_sem (taken d.drv.tx_fin_sem) d) d;
  lock_inst_mutex = λ t d. (true, put_inst_mutex (locked d.drv.inst_mutex) d);
}

-- A thread that finds the semaphore of the completion at 0 lets the completion interrupt run.
abbrev wait_fin : Dev Board → Bool × Dev Board
wait_fin d =
    let d' = tc_event_handler hal base_os d in
    if ltb 0 d.drv.tx_fin_sem.count
    then (true, put_tx_fin_sem (taken d.drv.tx_fin_sem) d)
    else (true, put_tx_fin_sem (taken d'.drv.tx_fin_sem) d')

abbrev pub os : Os Board
os = record base_os { take_tx_fin_sem = λ t d. wait_fin d }

pub os-laws : OsLaws os
os-laws = record {
  sem_init_lem = λ c l. refl;
  mutex_init_lem = refl;
  sem_give_lem = λ s. refl;
  mutex_unlock_lem = λ m. refl;
  take_tx_sem_lem = λ t d h. rw (lt→ltb 0 d.drv.tx_sem.count h);
  take_tx_sem_busy = λ d h. rw h;
  lock_tx_mutex_lem = λ t d h. refl;
  take_tx_fin_sem_lem = λ t d h. rw (lt→ltb 0 d.drv.tx_fin_sem.count h);
  lock_inst_mutex_lem = λ t d h. refl;
}

pub read_queue_lem :
    (q : List RxBuf) (b : Board)
    → b.queue ≡ q
    → 0 < length q
    → suc (length (read_queue q b).1.queue) ≡ length q
read_queue_lem [] b e h = absurd (omega arith)
read_queue_lem (m ∷ ms) b e h = refl

abbrev pub rx_queue : RxQueue hal
rx_queue = record {
  pending = λ b. length b.queue;
  available_lem = λ b. refl;
  read_lem = λ b h. read_queue_lem b.queue b refl h;
}

abbrev pub fresh_data : CanData
fresh_data = record {
  mode = record { loopback = false; listenonly = false; fd = false; others = 0 };
  config = default_config;
  can_filter_count = 0;
  filter_list = replicate 16 no_filter;
  filter_rtr = 0;
  filter_rtr_mask = 0;
  inst_mutex = unlocked;
  tx_mutex = unlocked;
  tx_sem = one_left;
  tx_fin_sem = none_left;
  tx_fin_cb = none;
  tx_fin_cb_arg = none;
  rx_cb = replicate 16 none;
  rx_cb_arg = replicate 16 none;
  state_change_cb = none;
  state_change_cb_data = none;
  started = true;
}

abbrev pub fresh_board : Board
fresh_board = record {
  queue = [];
  inits = 0;
  sent = [];
  words = [];
  events = no_event;
  errors = no_errors;
}

abbrev pub fresh : Dev Board
fresh = record { drv = fresh_data; hw = fresh_board; calls = [] }

pub wait_fin_wakes :
    (x : Dev Board)
    → x.drv.tx_fin_cb ≡ none
    → x.drv.tx_fin_sem ≡ none_left
    → os.take_tx_fin_sem forever x ≡ os.take_tx_fin_sem forever (tc_event_handler hal os x)
unfolding tc_event_handler
wait_fin_wakes x c s = simp (c, s)
