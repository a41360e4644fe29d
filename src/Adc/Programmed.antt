-- ===== src/Adc/Programmed.antt =====
-- The sequence that hpmicro_adc12_start_channel programs, and the results of it.
use hpm_support.Prelude.{ℕ, List, [], ◌∷◌}
use hpm_support.Adc.Hal.{Os, Hal}

module _ {Ctx Hw : Type 0} (os : Os Ctx Hw) (hal : Hal Hw) where
  -- The channels, initialised one after the other
  abbrev pub init_list : List ℕ → Hw → Hw
  init_list [] hw = hw
  init_list (i ∷ is) hw = init_list is (hal.init_channel i hw)
