-- ===== src/I2c/Transfer/Absent.antt =====
-- A transfer of drivers/i2c/i2c_hpmicro.c to an address that nothing answers, and the addresses that
-- a transfer does not tell apart.
use mathlib.Core.Option
use hpm_support.Prelude.{ℕ, ◌%◌, ◌≡◌, refl, true, false, some, List, [], ◌∷◌}
use hpm_support.I2c.Types.{Msg, Events, transaction_complete, fifo_full, fifo_empty, Dev}
use hpm_support.Zephyr.{Sem}
use hpm_support.I2c.Hal.{Hal, App, Os}
use hpm_support.I2c.Transfer.{begin_transfer, transfer_first, transfer}
use hpm_support.I2c.Isr.{isr}

module _ {Hw : Type 0} (hal : Hal Hw) (os : Os Hw) where
  -- Two addresses with the same low 8 bits are the same to a transfer, also with 10-bit addressing.
  pub transfer-address :
      (msgs : List Msg) (num_msgs a b : ℕ) (d : Dev Hw)
      → a % 256 ≡ b % 256
      → transfer hal os msgs num_msgs a d ≡ transfer hal os msgs num_msgs b d
  unfolding transfer transfer_first begin_transfer
  transfer-address msgs num_msgs a b d e = simp e refl

-- No event of the unit.
abbrev pub no_events : Events
no_events = record {
  address_hit = false;
  transaction_complete = false;
  fifo_full = false;
  fifo_empty = false;
}

-- The end of a transaction whose address nothing has answered to.
abbrev pub only_complete : Events
only_complete = record no_events { transaction_complete = true }

-- The wait for the completion returns behind one interrupt, with whatever the kernel leaves of the
-- units that the interrupt has given.
abbrev pub WakesAfterIsr : {Hw : Type 0} → Hal Hw → App → Os Hw → ℕ → Dev Hw → Type 0
WakesAfterIsr {Hw} hal app os fuel d =
    (d' : Dev Hw)
    → isr hal app os fuel d ≡ some d'
    → (s : Sem) × (os.take_completion d ≡ record d' { completion = s })

module _ {Hw : Type 0} (hal : Hal Hw) where
  -- The registers when the interrupt of a missed address looks for bytes of the FIFO
  abbrev pub after_miss : Hw → Hw
  after_miss hw =
      let r = hal.set_ctrl_stop_only (hal.disable_irq (fifo_full ∷ fifo_empty ∷ []) hw) in
      hal.clear_status transaction_complete (
        hal.disable_irq (transaction_complete ∷ fifo_full ∷ fifo_empty ∷ [])
          (hal.issue_transmission r))
