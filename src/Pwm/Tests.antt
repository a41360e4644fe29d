-- ===== src/Pwm/Tests.antt =====
-- Runs of drivers/pwm/pwm_hpmicro.c, and the instances of its theorems.
use hpm_support.Prelude.{◌<◌, ◌≡◌, refl, true, false, some, List, [], ◌∷◌, arith}
use hpm_support.Pwm.Types.{sub_u32, trig_enable}
use hpm_support.Pwm.V1
use hpm_support.Pwm.V2
use hpm_support.Pwm.Types
use hpm_support.Pwm.V2.Layout.{shadow_cmp2-lt}
use hpm_support.Pwm.V2.Shadow.{shadow}
use hpm_support.Pwm.V2.Spec.{Request, run, edge_of, period_of, run-edge_of}

-- A unit of the first generation that reads as never set up.
abbrev old_unit : V1.Hal
old_unit = record {
  polarity_normal = 0;
  polarity_inverted = 1;
  cmp_max_count = 24;
  reload_register = λ t. (0, 0);
  setup_done = λ t. true;
}

-- A unit of the second generation, whose compare status is always 0.
abbrev new_unit : Types.Hal Types.Call
new_unit = record { polarity_normal = 0; polarity_inverted = 1; cmp_working_status = λ c t. 0 }

-- The flag of a trigger is the flag of the normal polarity: the call sets up a waveform.
set_cycles_trigger :
    V1.set_cycles old_unit 0 2 1000 250 trig_enable []
    ≡ V1.set_waveform old_unit 0 2 false 1000 250 []
unfolding V1.set_cycles
set_cycles_trigger = refl

shadow_cmp2-lt_example : (V2.shadow_cmp2 7 < 20) × (V2.cmp_index2 7 < 16)
shadow_cmp2-lt_example = shadow_cmp2-lt 7 (omega arith)

-- The second channel of the first counter, then the first with another period.
abbrev requests : List Request
requests =
    record { channel = 0; period = 2000; pulse = 500; flags = 0 }
    ∷ record { channel = 1; period = 1000; pulse = 250; flags = 1 }
    ∷ record { channel = 9; period = 1000; pulse = 250; flags = 1 }
    ∷ []

run-edge_of_example :
    (shadow (run new_unit 3 requests) (V2.shadow_cmp2 1) ≡ edge_of new_unit 3 requests 1)
    × (shadow (run new_unit 3 requests) (V2.shadow_reload 1) ≡ period_of new_unit 3 requests 0)
run-edge_of_example = run-edge_of new_unit 3 requests 1 (omega arith)

-- The channel keeps its falling edge, and has lost its period to the other channel.
edge_of-requests : edge_of new_unit 3 requests 1 ≡ some 750
edge_of-requests = refl

period_of-requests : period_of new_unit 3 requests 0 ≡ some 2000
period_of-requests = refl
