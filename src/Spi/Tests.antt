-- ===== src/Spi/Tests.antt =====
-- Runs of drivers/spi/spi_hpmicro.c on a simulated unit, and the instances of its theorems.
use hpm_support.Prelude.{
  ℕ, ◌≡◌, refl, Bool, true, false, ◌||◌, none, some, List, [], ◌∷◌, ◌++◌, arith,
}
use hpm_support.Errno.{Status, success}
use hpm_support.Spi.Types.{
  Control, SpiConfig, Stream, memory_to_peripheral, peripheral_to_memory, other_mode, write_only,
  Dev,
}
use hpm_support.Spi.Hal.{Os, Hal}
use hpm_support.Spi.Context.{Part, head_len, head_addr, shift, CtxLaws}
use hpm_support.Spi.Config.{on_ctx, configure}
use hpm_support.Spi.Packet.{threshold_ints, packet_of}
use hpm_support.Spi.Packet.Words.{Word, Sends, interrupts, interrupts-words}
use hpm_support.Spi.Dma.{no_flags, dma_tx_load, dma_rx_load}
use hpm_support.Spi.Transceive.{dma_loop, start_streams, transceive_dma}
use hpm_support.Spi.Transceive.Drains.{Succeeds, dma_loop-drains}
use hpm_support.Spi.Transceive.Setup.{transceive_dma-not_set_up}

-- The context: the parts of both directions and the chip select
record Sim : Type 0 where
  tx : List Part
  rx : List Part
  selected : Bool

-- The unit: the words sent
record Line : Type 0 where
  sent : List Word

abbrev control : Control
control = record {
  trans_mode = other_mode;
  tx_dma_enable = false;
  rx_dma_enable = false;
  slave_data_only = true;
}

-- `works` says whether it can be set up for DMA.
abbrev hal_with : Bool → Hal Line
hal_with works = record {
  transfer_count_max = 512;
  default_control = control;
  control_init = λ c t r hw. (true, hw);
  write_command = λ c hw. (true, hw);
  enable_interrupt = λ i hw. hw;
  disable_interrupt = λ i hw. hw;
  get_interrupt_status = λ hw. threshold_ints;
  clear_interrupt_status = λ i hw. hw;
  get_data_length_in_bytes = λ hw. 2;
  read_data = λ w a n hw. (true, hw);
  write_data =
      λ w a n hw. (true, record hw { sent = hw.sent ++ (record { width = w; addr = a } ∷ []) });
  write_read_data = λ w a n b m hw. (true, hw);
  clock_frequency = λ hw. 80000000;
  timing_init = λ f g hw. hw;
  format_init = λ f hw. hw;
  dma_config = λ s hw. (success, hw);
  dma_start = λ n hw. (success, hw);
  dma_tx_ready = λ hw. true;
  dma_rx_ready = λ hw. true;
  data_register = 4000;
  dummy_tx_buffer = 4100;
  dummy_rx_buffer = 4200;
  setup_dma_transfer = λ c t r hw. (works, hw);
  is_active = λ hw. (false, hw);
  disable_dma = λ hw. hw;
  irq_config = λ hw. hw;
  apply_pinctrl = λ hw. (none, hw);
  set_up_clock = λ hw. hw;
}

abbrev hal : Hal Line
hal = hal_with true

abbrev receives : List Part → Bool
receives [] = false
receives (p ∷ ps) = true

-- A wait in which the streams end that a packet has: the one that receives only while there is
-- something to receive. And one in which only the one that sends ends
abbrev streams_done : Dev Sim Line → Dev Sim Line
streams_done d = record d {
  status_flags = record { error = false; rx_done = receives d.ctx.rx; tx_done = true };
}

abbrev os_with : (Dev Sim Line → Status × Dev Sim Line) → Os (List Part) Sim Line
os_with wait = record {
  tx_len = λ c. head_len c.tx;
  rx_len = λ c. head_len c.rx;
  tx_buf = λ c. head_addr c.tx;
  rx_buf = λ c. head_addr c.rx;
  update_tx = λ w n c. record c { tx = shift n c.tx };
  update_rx = λ w n c. record c { rx = shift n c.rx };
  configured = λ cfg c. false;
  set_config = λ cfg c. c;
  cs_control = λ v c. record c { selected = v };
  complete = λ st c. c;
  lock = λ async cfg d. d;
  buffers_setup = λ tx rx w c. record c { tx = tx; rx = rx };
  wait_for_completion = wait;
  release = λ st c. c;
  unlock_unconditionally = λ c. c;
  cs_configure_all = λ c. (success, c);
}

abbrev os : Os (List Part) Sim Line
os = os_with (λ d. (success, streams_done d))

abbrev tx_only : Dev Sim Line → Status × Dev Sim Line
tx_only d =
    (success, record d { status_flags = record { error = false; rx_done = false; tx_done = true } })

laws : CtxLaws os (λ c. c.tx) (λ c. c.rx)
laws = record {
  tx_len_lem = λ c. refl;
  rx_len_lem = λ c. refl;
  update_tx_tx = λ n c. refl;
  update_tx_rx = λ n c. refl;
  update_rx_tx = λ n c. refl;
  update_rx_rx = λ n c. refl;
}

abbrev stream : ℕ → Stream
stream n = record {
  channel = n;
  channel_direction = memory_to_peripheral;
  source_burst_length = 1;
  source_address = 0;
  source_inc = false;
  dest_address = 0;
  dest_inc = false;
  block_size = 0;
}

abbrev dev : Sim → Dev Sim Line
dev c = record {
  control_config = record control { trans_mode = write_only };
  ctx = c;
  transfer_len = 0;
  tx_buf = 100;
  rx_buf = 0;
  status_flags = no_flags;
  dma_rx = stream 1;
  dma_tx = stream 2;
  hw = record { sent = [] };
}

abbrev cfg : SpiConfig
cfg = record {
  frequency = 1000000;
  word_size = 8;
  master = true;
  cpol = false;
  cpha = false;
  lsb = false;
}

-- Three bytes to send in two parts, and two to receive
abbrev tx_parts : List Part
tx_parts = record { addr = 100; len = 1 } ∷ record { addr = 200; len = 2 } ∷ []

abbrev rx_parts : List Part
rx_parts = record { addr = 300; len = 2 } ∷ []

abbrev ready : Sim
ready = record { tx = tx_parts; rx = rx_parts; selected = true }

abbrev idle : Sim
idle = record { tx = []; rx = []; selected = false }

or_true : (b : Bool) → (b || true) ≡ true
or_true true = refl
or_true false = refl

succeeds : Succeeds os hal (λ c. c.tx) (λ c. c.rx)
succeeds = record {
  config_ok = λ s hw. refl;
  start_ok = λ n hw. refl;
  setup_ok = λ c t r hw. refl;
  wait_ok = λ d. refl;
  wait_error = λ d. refl;
  wait_done = λ d. or_true (receives d.ctx.rx);
  wait_parts = λ d. (refl, refl);
  idle_ok = λ hw. refl;
  max_positive = omega arith;
}

-- The two directions together, and then the rest of what is sent
dma_loop-drains_example :
    (r : Dev Sim Line) × (dma_loop os hal true 1 6 control (dev ready)
      ≡ some (success, on_ctx (λ c. record c { selected = false }) r))
    × (Sim.tx (Dev.ctx r) ≡ [])
    × (Sim.rx (Dev.ctx r) ≡ [])
dma_loop-drains_example =
    dma_loop-drains os hal true (λ c. c.tx) (λ c. c.rx) laws succeeds 0 6 control (dev ready)
      (omega arith, (omega arith, tt)) (omega arith, tt) (omega arith)

-- The chip select stays active.
transceive_dma-not_set_up_example :
    (r : Dev Sim Line) × (transceive_dma os
        (hal_with false)
        true
        1
        false
        cfg
        tx_parts
        rx_parts
        (dev idle)
      ≡ some (success, r))
    × (Dev.ctx r ≡ ready)
unfolding configure start_streams dma_tx_load dma_rx_load packet_of
transceive_dma-not_set_up_example =
    transceive_dma-not_set_up os (hal_with false) true 0 false cfg tx_parts rx_parts (dev idle)
      (dev idle)
      (record (dev ready) {
        dma_rx = record (stream 1) {
          channel_direction = peripheral_to_memory;
          source_address = 4000;
          dest_address = 300;
          dest_inc = true;
          block_size = 1;
        };
        dma_tx = record (stream 2) {
          source_address = 100;
          source_inc = true;
          dest_address = 4000;
          block_size = 1;
        };
      })
      refl refl refl refl

abbrev os_tx : Os (List Part) Sim Line
os_tx = os_with tx_only

sends : Sends hal 2 (λ hw. hw.sent)
sends = record {
  asks = λ hw. refl;
  width_lem = λ hw. refl;
  takes = λ a hw. refl;
  sent_lem = λ a hw. refl;
  clear_lem = λ i hw. refl;
}

-- Words of two bytes
interrupts-words_example :
    Line.sent (Dev.hw (interrupts os hal 3 (dev ready)))
    ≡ record { width = 2; addr = 100 }
      ∷ record { width = 2; addr = 101 }
      ∷ record { width = 2; addr = 102 }
      ∷ []
interrupts-words_example = interrupts-words os hal 2 3 (λ hw. hw.sent) (dev ready) sends refl
