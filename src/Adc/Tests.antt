-- ===== src/Adc/Tests.antt =====
-- A run of drivers/adc/adc_hpmicro_adc12.c on a simulated converter, and the instance of its theorem.
use hpm_support.Prelude.{
  ℕ, zero, suc, ◌*◌, ◌/◌, true, false, none, List, [], ◌∷◌, ◌++◌, if◌then◌else◌, test_bit,
}
use hpm_support.Errno.{success}
use hpm_support.Adc.Types.{Dev}
use hpm_support.Adc.Hal.{Os, Hal}

-- The queue that was programmed, the channels that were initialised, and the results
record Sim : Type 0 where
  queue : List ℕ
  ready : List ℕ

-- One more than the number of the lowest of `n` bits
lsb : ℕ → ℕ → ℕ
lsb zero w = 0
lsb (suc n) w = if test_bit w 0 then 1 else suc (lsb n (w / 2))

abbrev os : Os ℕ Sim
os = record {
  lock = λ a d. d;
  start_read = λ s d. d;
  wait_for_completion = λ d. (success, d);
  release = λ st c. c;
  sequence_channels = λ c. c;
  on_sampling_done = λ d. d;
  unlock_unconditionally = λ c. c;
  find_lsb_set = lsb 32;
}

abbrev hal : Hal Sim
hal = record {
  is_channel_invalid = λ n. false;
  set_resolution = λ r w. w;
  init_channel = λ i w. record w { ready = w.ready ++ (i ∷ []) };
  set_seq_config = λ q w. record w { queue = q };
  init_seq_dma = λ n w. w;
  trig_en = false;
  trigger_mux_config = λ w. w;
  enable_complete_interrupt = λ w. w;
  trigger_seq_by_sw = λ w. w;
  is_complete = λ w. true;
  clear_status_flags = λ w. w;
  oneshot_result = λ i w. (i * 4096, w);
  set_up_clock = λ w. w;
  apply_pinctrl = λ w. (none, w);
  adc_init = λ w. w;
  irq_config = λ w. w;
}

-- The channels 1, 3 and 4, with 8 bits
abbrev dev : Dev ℕ Sim
dev = record {
  ctx = 26;
  buffer = 100;
  repeat_buffer = 100;
  channels = 26;
  channel_num = 0;
  resolution = 8;
  hw = record { queue = []; ready = [] };
  mem = λ a. 0;
}
