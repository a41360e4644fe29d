-- ===== src/I2c/Tests.antt =====
-- Runs of drivers/i2c/i2c_hpmicro.c on a simulated unit, and the instances of its theorems.
use mathlib.Core.Option
use hpm_support.Prelude.{
  ℕ, suc, Option, ◌+◌, ◌-◌, ◌≡◌, ◌==◌, refl, true, false, none, some, List, [], ◌∷◌, ◌++◌, arith,
  length, take, min, is_empty,
}
use hpm_support.Errno.{success}
use hpm_support.I2c.Types.{Msg, addrhit, Target, Events, Dev}
use hpm_support.I2c.Hal.{Hal, App, Os}
use hpm_support.I2c.Transfer.{transfer, begin_transfer}
use hpm_support.I2c.Transfer.Absent.{no_events, only_complete}
use hpm_support.I2c.Target.{slave_register, slave_unregister}
use hpm_support.I2c.Target.Lock.{OneThread, slave_unregister-slave_register}
use hpm_support.I2c.Isr.{isr, transmit_phase, complete_phase}
use hpm_support.I2c.Isr.Written.{FifoLaws, Writes, transmit_phase-Writes}
use hpm_support.I2c.Isr.Received.{HeldLaws, stored_at, complete_phase-last}

-- The bytes in the FIFO on reception, those written to it, and the room in it.
record Sim : Type 0 where
  held : List ℕ
  sent : List ℕ
  room : ℕ

abbrev first : List ℕ → ℕ
first [] = 0
first (v ∷ vs) = v

abbrev rest : List ℕ → List ℕ
rest [] = []
rest (v ∷ vs) = vs

abbrev hal : Hal Sim
hal = record {
  apply_pinctrl = λ w. (none, w);
  irq_config = λ w. w;
  set_up_clock = λ w. w;
  clock_frequency = λ w. 24000000;
  init_slave = λ f m t a w. (true, w);
  init_master = λ f m t w. (true, w);
  transfer_count_max = 4096;
  enable_irq = λ es w. w;
  disable_irq = λ es w. w;
  enable_10bit_address_mode = λ b w. w;
  get_status = λ w. no_events;
  get_irq_setting = λ w. no_events;
  clear_status = λ e w. w;
  get_direction = λ w. 1;
  dir_slave_read = 0;
  dir_master_read = 1;
  clear_cmpl = λ w. w;
  clear_fifo = λ w. w;
  set_addr = λ a w. w;
  set_ctrl = λ c w. w;
  set_ctrl_stop_only = λ w. w;
  add_ctrl_stop = λ w. w;
  issue_transmission = λ w. w;
  datacnt_map = λ n. n;
  fifo_is_full = λ w. w.room == 0;
  fifo_is_empty = λ w. is_empty w.held;
  write_byte = λ v w. record w { sent = w.sent ++ (v ∷ []); room = w.room - 1 };
  read_byte = λ w. (first w.held, record w { held = rest w.held });
}

abbrev app : App
app = record { requested_byte = λ cs. 0; processed_byte = λ cs. 0 }

-- A kernel in which the wait for the completion ends at once.
abbrev os : Os Sim
os = record {
  sem_init = λ c l. record { count = c; limit = l };
  mutex_init = record { lock_count = 0 };
  sem_give = λ s. record s { count = min (s.count + 1) s.limit };
  mutex_unlock = λ m. record { lock_count = m.lock_count - 1 };
  lock_mutex = λ d. record d { mutex = record { lock_count = d.mutex.lock_count + 1 } };
  take_completion = λ d. d;
}

fifo-laws : FifoLaws hal (λ w. w.room) (λ w. w.sent)
fifo-laws = record {
  full_lem = λ w. refl;
  room_lem = λ v w. refl;
  sent_lem = λ v w. refl;
  irq_lem = λ es w. refl;
}

held-laws : HeldLaws hal (λ w. w.held)
held-laws = record {
  empty_lem = λ w. refl;
  read_lem = λ v vs w h. rw h (refl, refl);
  irq_lem = λ es w. refl;
  clear_lem = λ e w. refl;
  irq_direction = λ es w. refl;
  clear_direction = λ e w. refl;
}

one-thread : OneThread os
one-thread = record { lock_lem = λ d. refl; unlock_lem = λ m. refl }

abbrev message : Msg
message = record { buf = 100; len = 4; read = true; stop = true; restart = false; ten_bit = true }

-- A transfer of one message of 4 bytes, of which 1 has been dealt with.
abbrev dev : Sim → Dev Sim
dev w = record {
  transfer = record {
    msgs = message ∷ [];
    pos = 0;
    curr_buf = 100;
    curr_len = 4;
    curr_index = 1;
    nr_msgs = 1;
    addr = 80;
    status = addrhit;
  };
  slave = none;
  completion = record { count = 0; limit = 1 };
  mutex = record { lock_count = 0 };
  hw = w;
  mem = λ x. x;
  calls = [];
}

abbrev sim : Sim
sim = record { held = 7 ∷ 8 ∷ 9 ∷ []; sent = []; room = 2 }

abbrev empty_requested : Events
empty_requested = record no_events { fifo_empty = true }

abbrev full : Events
full = record no_events { fifo_full = true }

abbrev completed : Events
completed = record no_events { transaction_complete = true }

abbrev target : Target
target = record { id = 3; address = 80; ten_bit = false }

slave_unregister-slave_register_example :
    (let r = slave_register hal os (some target) (dev sim) in
      let u = slave_unregister hal os (some target) r.1 in
      (r.1.slave ≡ some target)
      × (r.1.mutex.lock_count ≡ 1)
      × (u.0 ≡ success)
      × (u.1.slave ≡ none)
      × (u.1.mutex.lock_count ≡ 1))
slave_unregister-slave_register_example =
    slave_unregister-slave_register hal os target (dev sim) one-thread refl refl

-- A unit that reports the end of a transaction whose address nothing has answered to.
abbrev hal_silent : Hal Sim
hal_silent = record hal { get_status = λ w. only_complete }

-- A kernel in which the wait for the completion is one interrupt, whose first unit wakes the waiting
-- thread and whose second one is left.
abbrev woken : Dev Sim → Option (Dev Sim) → Dev Sim
woken d none = d
woken d (some x) = record x { completion = record { count = 1; limit = 1 } }

abbrev os_wait : Os Sim
os_wait = record os { take_completion = λ d. woken d (isr hal_silent app os 1 d) }

abbrev quiet : Sim
quiet = record { held = []; sent = []; room = 2 }

abbrev begun : Dev Sim
begun = begin_transfer hal_silent os_wait (message ∷ []) 1 80 message (dev quiet)

transmit_phase-Writes_example :
    (d' : Dev Sim) × (transmit_phase hal app os (suc 2) empty_requested empty_requested (dev sim)
      ≡ some d')
    × Writes (λ w. w.sent) (min (4 - 1) 2) (dev sim) d'
transmit_phase-Writes_example =
    transmit_phase-Writes hal app os (λ w. w.room) (λ w. w.sent) empty_requested empty_requested
      (dev sim) fifo-laws refl refl refl refl (omega arith) (omega arith)

complete_phase-last_example :
    (d' : Dev Sim) × (complete_phase hal app os (suc (length (sim.held))) completed (dev sim)
      ≡ some d')
    × (d'.mem ≡ stored_at (100 + 1) (take 3 (sim.held)) (λ x. x))
    × (d'.transfer.nr_msgs ≡ 0)
    × (d'.completion ≡ os.sem_give ((dev sim).completion))
complete_phase-last_example =
    complete_phase-last hal app os (λ w. w.held) 3 completed (dev sim) held-laws refl refl refl refl
      (omega arith) refl
