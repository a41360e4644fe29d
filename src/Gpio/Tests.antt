-- ===== src/Gpio/Tests.antt =====
-- Runs of drivers/gpio/gpio_hpmicro.c on a simulated port, and the instances of its theorems.
use hpm_support.Prelude.{
  ℕ, ◌≡◌, refl, true, false, List, [], ◌∷◌, arith, if◌then◌else◌, test_bit, set_bit, clear_bit,
  word_or, word_and, word_not,
}
use hpm_support.Errno.{success}
use hpm_support.Gpio.Types.{Flags, Dev, Hal}
use hpm_support.Gpio.Port.{port_get_raw, port_set_masked_raw}
use hpm_support.Gpio.Port.Masked.{OutputLaws, port_set_masked_raw-bits}

-- The port is its word; the lower eight pins are outputs, and callbacks are numbers.
abbrev hal : Hal ℕ (List ℕ)
hal = record {
  apply_pins = λ w. w;
  set_pin_input = λ i w. w;
  set_pin_output = λ i w. w;
  write_pin = λ i b w. if b then set_bit w i else clear_bit w i;
  read_port = λ w. w;
  write_port = λ v w. v;
  output_enable = λ w. 255;
  set_port_high = λ m w. word_or 32 w m;
  set_port_low = λ m w. word_and 32 w (word_not 32 m);
  toggle_port = λ m w. w;
  disable_pin_interrupt = λ i w. w;
  config_pin_interrupt = λ i t w. w;
  enable_pin_interrupt = λ i w. w;
  interrupt_flags = λ w. 0;
  write_interrupt_flags = λ v w. w;
  manage_callback = λ c set cbs. (success, c ∷ cbs);
  fire_callbacks = λ s d. d;
}

output-laws : OutputLaws hal
output-laws = record { reads = λ w i hw h out. refl }

abbrev port : Dev ℕ (List ℕ)
port = record { callbacks = []; hw = 170 }

abbrev plain_input : Flags
plain_input = record {
  input = true;
  output = false;
  single_ended = false;
  pull_up = false;
  pull_down = false;
  init_high = false;
  init_low = false;
}

port_set_masked_raw-bits_example :
    test_bit (port_get_raw hal (port_set_masked_raw hal 15 5 port).1) 0
    ≡ (if test_bit 15 0 then test_bit 5 0 else test_bit (port_get_raw hal port) 0)
port_set_masked_raw-bits_example =
    port_set_masked_raw-bits hal output-laws 15 5 port 0 (omega arith) refl
