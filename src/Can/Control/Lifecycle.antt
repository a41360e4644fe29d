-- ===== src/Can/Control/Lifecycle.antt =====
-- Sequences of control calls on a CAN device.
use hpm_support.Prelude.{◌≡◌, ◌∙◌, refl, ap, Bool, true, List, [], ◌∷◌, arith}
use hpm_support.Errno.{Status}
use hpm_support.Can.Types.{Mode, Timing, Dev}
use hpm_support.Can.Hal.{Hal}
use hpm_support.Can.Control.{set_mode, set_timing, set_timing_data, start, stop}

-- A control call of the CAN API that changes the device.
pub data Op : Type 0 where
  change_mode : Mode → Op
  change_timing : Timing → Op
  change_timing_data : Timing → Op
  bring_up : Op
  take_down : Op

module _ {Hw : Type 0} (hal : Hal Hw) (fd : Bool) where
  abbrev pub call : Op → Dev Hw → Status × Dev Hw
  call (change_mode m) d = set_mode hal fd m d
  call (change_timing t) d = set_timing hal t d
  call (change_timing_data t) d = set_timing_data hal t d
  call bring_up d = start hal d
  call take_down d = stop hal d

  -- The calls in order, whatever they return.
  abbrev pub run : List Op → Dev Hw → Dev Hw
  run [] d = d
  run (o ∷ os) d = run os (call o d).1

  abbrev pub IsStop : Op → Type 0
  IsStop take_down = Unit {0}
  IsStop _ = ⊥

  call_frozen : (o : Op) (d : Dev Hw) → d.drv.started ≡ true → ¬ IsStop o → (call o d).1 ≡ d
  unfolding set_mode set_timing set_timing_data start
  call_frozen (change_mode m) d s h = simp s
  call_frozen (change_timing t) d s h = simp s
  call_frozen (change_timing_data t) d s h = simp s
  call_frozen bring_up d s h = simp s
  call_frozen take_down d s h = absurd (h tt)

  abbrev pub HasNoStop : List Op → Type 0
  HasNoStop [] = Unit {0}
  HasNoStop (o ∷ os) = (¬ IsStop o) × HasNoStop os

  -- While the controller runs, no sequence of control calls without a stop changes anything of the
  -- device, the mode, the timing and the registers included.
  pub run_frozen :
      (ops : List Op) (d : Dev Hw) → d.drv.started ≡ true → HasNoStop ops → run ops d ≡ d
  run_frozen [] d s h = refl
  run_frozen (o ∷ os) d s h = ap (run os) (call_frozen o d s h.0) ∙ run_frozen os d s h.1

  call_canfd :
      (o : Op) (d : Dev Hw)
      → d.drv.config.enable_canfd ≡ true
      → (call o d).1.drv.config.enable_canfd ≡ true
  unfolding set_mode set_timing set_timing_data start stop
  call_canfd (change_mode m) d h = ground arith
  call_canfd (change_timing t) d h = ground arith
  call_canfd (change_timing_data t) d h = ground arith
  call_canfd bring_up d h = ground arith
  call_canfd take_down d h = ground arith

  -- Once the controller's FD switch is on, no sequence of control calls turns it off, calls of
  -- `hpm_can_set_mode` with a mode that has no FD flag among them.
  pub run_canfd :
      (ops : List Op) (d : Dev Hw)
      → d.drv.config.enable_canfd ≡ true
      → (run ops d).drv.config.enable_canfd ≡ true
  run_canfd [] d h = h
  run_canfd (o ∷ os) d h = run_canfd os (call o d).1 (call_canfd o d h)
