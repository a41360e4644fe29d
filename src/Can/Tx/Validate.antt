-- ===== src/Can/Tx/Validate.antt =====
-- The two checks of a frame, `hpm_can_validate_tx_frame` and the head of `hpm_can_send`.
use hpm_support.Prelude.{◌≤◌, ◌≡◌, ◌↔◌, refl, Bool, true, false, some, List, [], ◌∷◌, arith}
use hpm_support.Errno.{success, both-success, err, enotsup}
use hpm_support.Can.Types.{Frame, CanData}
use hpm_support.Can.Hal.{Hal}
use hpm_support.Can.Tx.{validate_tx_frame, validate_send, validate_all}

module _ {Hw : Type 0} (hal : Hal Hw) (fd : Bool) (s : CanData) where
  -- The two checks give the same answer on every frame whose ESI flag is clear, or whose BRS flag
  -- is its FDF flag.
  pub validate_send-validate_tx_frame :
      (f : Frame)
      → (f.flags.esi ≡ true → f.flags.brs ≡ f.flags.fdf)
      → validate_send hal fd s f ≡ validate_tx_frame hal fd s (some f)
  unfolding validate_send validate_tx_frame
  validate_send-validate_tx_frame f h = ground arith

  -- In FD mode an FD frame with ESI and without BRS is refused by `hpm_can_send` with -ENOTSUP,
  -- though its log message asks only for FDF; the check of a batch accepts it.
  pub validate_send-esi :
      (f : Frame)
      → fd ≡ true
      → s.config.enable_canfd ≡ true
      → f.flags.esi ≡ true
      → f.flags.fdf ≡ true
      → f.flags.brs ≡ false
      → f.flags.rtr ≡ false
      → f.dlc ≤ hal.max_dlc_fd
      → (validate_send hal fd s f ≡ err enotsup) × (validate_tx_frame hal fd s (some f) ≡ success)
  unfolding validate_send validate_tx_frame
  validate_send-esi f a b c e g h l = ground arith

  abbrev pub AllValid : List Frame → Type 0
  AllValid [] = Unit {0}
  AllValid (f ∷ fs) = (validate_tx_frame hal fd s (some f) ≡ success) × AllValid fs

  -- A batch passes exactly when each of its frames does.
  pub validate_all-AllValid : (fs : List Frame) → (validate_all hal fd s fs ≡ success) ↔ AllValid fs
  unfolding validate_all
  validate_all-AllValid [] = (λ h. tt, λ h. refl)
  validate_all-AllValid (f ∷ fs) =
      let b = both-success (validate_tx_frame hal fd s (some f)) (validate_all hal fd s fs) in
      let ih = validate_all-AllValid fs in
      (λ h. ((b.0 h).0, ih.0 (b.0 h).1), λ h. b.1 (h.0, ih.1 h.1))
