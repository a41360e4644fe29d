-- ===== src/Dma/Tests.antt =====
-- Runs of drivers/dma/dma_hpmicro.c on a small controller, and the instances of its theorems.
use mathlib.Core.Path.{subst}
use mathlib.Core.Option
use hpm_support.Prelude.{
  ℕ, zero, suc, ◌≡◌, refl, true, false, none, some, List, [], ◌∷◌, arith, ltb, ◌==◌, if◌then◌else◌,
}
use hpm_support.Errno.{Status, success, err, efault}
use hpm_support.Dma.Types.{
  ChConfig, DmaConfig, memory_to_memory, memory_to_peripheral, other, Channel, Dev, Hal,
}
use hpm_support.Dma.Channel.{init, zero_config}
use hpm_support.Dma.Channel.Sound.{
  IsUnconfigured, Every, some_inj, Op, start_op, stop_op, reload_op, run, run-IsUnconfigured,
}
use hpm_support.Dma.Configure.{handshakes, width_case, prepare, configure}
use hpm_support.Dma.Configure.Codes.{Programmed}
use hpm_support.Dma.Configure.Outcome.{Configured, configure-Configured}
use hpm_support.Dma.Isr.{irq_handler}
use hpm_support.Dma.Isr.Complete.{Transfer, handle_channel-Transfer}
use hpm_support.Dma.Isr.Total.{HasCallback}

-- A controller whose registers are the list of the channels that are enabled. Channel 1 has come
-- to its end.
abbrev hal : Hal (List ℕ)
hal = record {
  dma_requests = 16;
  width_code = λ k. k;
  burst_code = λ k. k;
  width_max = 2;
  burst_max = 10;
  einval_code = 22;
  local_to_sys = λ a. a;
  dmamux_config = λ i slot hw. hw;
  abort_channel = λ i hw. [];
  clear_transfer_status = λ i hw. hw;
  setup_channel = λ i cfg hw. (ltb 0 cfg.size_in_byte, i ∷ hw);
  enable_channel = λ i hw. i ∷ hw;
  disable_channel = λ i hw. [];
  check_transfer_status = λ i hw. (record { tc = i == 1; error = false; abort = false }, hw);
  transfer_size = λ i hw. 0;
}

abbrev idle_channel : Channel
idle_channel = record {
  user_data = none;
  dma_callback = none;
  ch_config = zero_config;
  direction = memory_to_memory;
  valid = false;
  busy = false;
}

abbrev fresh : Dev (List ℕ)
fresh = record {
  data_cb = idle_channel ∷ idle_channel ∷ [];
  irq_locked = false;
  hw = [];
  calls = [];
}

init_two : init 2 ≡ fresh.data_cb
unfolding init
init_two = refl

abbrev word_copy : DmaConfig
word_copy = record {
  dma_slot = 3;
  channel_direction = memory_to_peripheral;
  source_data_size = 4;
  dest_data_size = 4;
  source_burst_length = 8;
  source_address = 100;
  dest_address = 200;
  source_addr_adj = 0;
  dest_addr_adj = 2;
  block_size = 64;
  dma_callback = some 77;
  user_data = some 5;
}

-- The same with a width of three bytes, which no controller has.
abbrev three_byte_copy : DmaConfig
three_byte_copy = record word_copy { source_data_size = 3 }

abbrev host_copy : DmaConfig
host_copy = record word_copy { channel_direction = other }

handshakes_word_copy : handshakes memory_to_peripheral ≡ some (false, true)
unfolding handshakes
handshakes_word_copy = refl

handshakes_host_copy : handshakes other ≡ none
unfolding handshakes
handshakes_host_copy = refl

width_case_three : width_case 3 ≡ none
unfolding width_case
width_case_three = refl

fresh-IsUnconfigured : Every IsUnconfigured fresh
fresh-IsUnconfigured zero c e =
    subst IsUnconfigured (some_inj e) (record { valid = refl; busy = refl })
fresh-IsUnconfigured (suc zero) c e =
    subst IsUnconfigured (some_inj e) (record { valid = refl; busy = refl })
fresh-IsUnconfigured (suc (suc k)) c e = cc

configure-Configured_example :
    (cfg : ChConfig) × (r : Status × Dev (List ℕ)) × (configure hal 1 (some word_copy) fresh
      ≡ some r)
    × Programmed hal word_copy cfg
    × (r.0
        ≡ (if (hal.setup_channel 1 cfg (prepare hal 1 3 false [])).0 then success else err efault))
    × Configured 1 word_copy cfg fresh r.1
configure-Configured_example =
    configure-Configured hal 1 word_copy (false, true) idle_channel fresh refl (omega arith)
      handshakes_word_copy

abbrev ops : List (ℕ × Op)
ops = (0, start_op) ∷ (1, stop_op) ∷ (0, reload_op 1 2 3) ∷ []

run-IsUnconfigured_example :
    (d : Dev (List ℕ)) × (run hal ops fresh ≡ some d) × (d.hw ≡ []) × Every IsUnconfigured d
run-IsUnconfigured_example =
    run-IsUnconfigured hal ops fresh (omega arith, (omega arith, (omega arith, tt)))
      fresh-IsUnconfigured

abbrev called_channel : Channel
called_channel = record idle_channel { dma_callback = some 77; busy = true }

abbrev running : Dev (List ℕ)
running = record fresh { data_cb = called_channel ∷ called_channel ∷ [] }

running-HasCallback : Every HasCallback running
running-HasCallback zero c e =
    subst HasCallback (some_inj e) (record { address = 77; installed = refl })
running-HasCallback (suc zero) c e =
    subst HasCallback (some_inj e) (record { address = 77; installed = refl })
running-HasCallback (suc (suc k)) c e = cc

-- A channel that comes to its end without a callback: the handler calls a NULL pointer.
irq_handler_null : irq_handler hal fresh ≡ none
unfolding irq_handler Option.bind
irq_handler_null = refl

handle_channel-Transfer_example : Transfer hal 1 77 word_copy fresh
handle_channel-Transfer_example =
    handle_channel-Transfer hal 1 77 word_copy (false, true) idle_channel fresh refl (omega arith)
      handshakes_word_copy refl (λ hw. refl)
