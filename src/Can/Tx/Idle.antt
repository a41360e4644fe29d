-- ===== src/Can/Tx/Idle.antt =====
-- The transmitter at rest, and what claiming it and giving it back do.
use hpm_support.Prelude.{◌≡◌, ◌∙◌, sym, ap, true, none, arith}
use hpm_support.Zephyr.{Sem, Mutex, Timeout}
use hpm_support.Can.Types.{Pointer, CanData, Dev}
use hpm_support.Can.Hal.{Hal, Os, OsLaws, taken, put_tx_sem, put_tx_mutex}
use hpm_support.Can.Tx.{claim_tx}

abbrev pub one_left : Sem
one_left = record { count = 1; limit = 1 }

abbrev pub none_left : Sem
none_left = record { count = 0; limit = 1 }

abbrev pub unlocked : Mutex
unlocked = record { lock_count = 0 }

abbrev pub locked_once : Mutex
locked_once = record { lock_count = 1 }

-- No frame is on its way and nobody waits for one.
pub record IsIdle (s : CanData) : Type 0 where
  pub tx_sem : s.tx_sem ≡ one_left
  pub tx_mutex : s.tx_mutex ≡ unlocked
  pub tx_fin_sem : s.tx_fin_sem ≡ none_left
  pub callback : s.tx_fin_cb ≡ none
  pub argument : s.tx_fin_cb_arg ≡ none

-- The driver's data while a frame is on its way: the semaphore is taken and the slot is filled.
abbrev pub in_flight : Pointer → Pointer → CanData → CanData
in_flight cb arg s = record s { tx_sem = none_left; tx_fin_cb = cb; tx_fin_cb_arg = arg }

-- The device with the transmitter claimed.
abbrev pub claimed : {Hw : Type 0} → Dev Hw → Dev Hw
claimed d = put_tx_mutex locked_once (put_tx_sem none_left d)

module _ {Hw : Type 0} (os : Os Hw) (laws : OsLaws os) where
  pub sem_give-none_left : os.sem_give none_left ≡ one_left
  sem_give-none_left = laws.sem_give_lem none_left

  pub mutex_unlock-locked_once : os.mutex_unlock locked_once ≡ unlocked
  mutex_unlock-locked_once = laws.mutex_unlock_lem locked_once

  pub claim_tx-IsIdle :
      (hal : Hal Hw) (t : Timeout) (d : Dev Hw)
      → IsIdle d.drv
      → claim_tx hal os t d ≡ (true, claimed d)
  unfolding claim_tx
  claim_tx-IsIdle hal t d v = rw (
    laws.take_tx_sem_lem t d (omega (arith, ap (λ s. s.count) v.tx_sem)),
    laws.lock_tx_mutex_lem t (put_tx_sem (taken d.drv.tx_sem) d)
        (ap (λ m. m.lock_count) v.tx_mutex),
    v.tx_sem,
    v.tx_mutex,
  )

  -- Giving both locks back with the callback slot empty brings the driver's data back to rest.
  pub restored :
      (s : CanData)
      → IsIdle s
      → record s {
        tx_mutex = os.mutex_unlock locked_once;
        tx_sem = os.sem_give none_left;
        tx_fin_cb = none;
        tx_fin_cb_arg = none;
      }
        ≡ s
  restored s v = λ i. record s {
    tx_mutex = (mutex_unlock-locked_once ∙ sym v.tx_mutex) i;
    tx_sem = (sem_give-none_left ∙ sym v.tx_sem) i;
    tx_fin_cb = sym v.callback i;
    tx_fin_cb_arg = sym v.argument i;
  }

  -- With the mutex alone given back, the frame is on its way.
  pub in_flight_lem :
      (s : CanData) (cb arg : Pointer)
      → IsIdle s
      → record s {
        tx_mutex = os.mutex_unlock locked_once;
        tx_sem = none_left;
        tx_fin_cb = cb;
        tx_fin_cb_arg = arg;
      }
        ≡ in_flight cb arg s
  in_flight_lem s cb arg v = λ i. record s {
    tx_mutex = (mutex_unlock-locked_once ∙ sym v.tx_mutex) i;
    tx_sem = none_left;
    tx_fin_cb = cb;
    tx_fin_cb_arg = arg;
  }

  pub given_back :
      (s : CanData)
      → IsIdle s
      → record s { tx_mutex = os.mutex_unlock locked_once; tx_sem = os.sem_give none_left } ≡ s
  given_back s v = λ i. record s {
    tx_mutex = (mutex_unlock-locked_once ∙ sym v.tx_mutex) i;
    tx_sem = (sem_give-none_left ∙ sym v.tx_sem) i;
  }
