-- ===== src/Can/TxTests.antt =====
-- Runs of the transmit calls of drivers/can/can_hpmicro.c on the simulated
-- board, and the instances of their theorems.
use hpm_support.Prelude.{◌≡◌, ◌↔◌, refl, true, false, none, some, List, [], ◌∷◌, arith}
use hpm_support.Errno.{err, success, enetdown}
use hpm_support.Zephyr.{forever}
use hpm_support.Can.Types.{Frame, CanData, Dev, tx_done}
use hpm_support.Can.State.{read_state}
use hpm_support.Can.Tx.{
  load_frames, validate_tx_frame, validate_send, validate_all, check_bus, send, send_batch,
}
use hpm_support.Can.Tx.Idle.{IsIdle, in_flight}
use hpm_support.Can.Tx.Send.{answer, send-err, send-sent}
use hpm_support.Can.Tx.Batch.{send_batch-sent}
use hpm_support.Can.Tx.Validate.{AllValid, validate_all-AllValid}
use hpm_support.Can.Isr.{tc_event_handler}
use hpm_support.Can.Isr.Complete.{send_complete}
use hpm_support.Can.Board.{Board, hal, os, os-laws, fresh, fresh_data, fresh_board}

abbrev plain : Frame
plain = record {
  id = 5;
  dlc = 2;
  flags = record { ide = false; rtr = false; fdf = false; brs = false; esi = false };
  payload = 7 ∷ 9 ∷ [];
}

fresh-IsIdle : IsIdle fresh_data
fresh-IsIdle = record {
  tx_sem = refl;
  tx_mutex = refl;
  tx_fin_sem = refl;
  callback = refl;
  argument = refl;
}

plain-valid : validate_send hal false fresh_data plain ≡ success
unfolding validate_send
plain-valid = refl

fresh-up : check_bus hal os fresh ≡ success
unfolding check_bus read_state
fresh-up = refl

send-sent_example : send hal os false plain forever (some 1) (some 2) fresh ≡ (
  success,
  record fresh { drv = in_flight (some 1) (some 2) fresh_data; hw = (answer hal plain fresh).1 },
)
send-sent_example =
    send-sent hal os os-laws false plain forever 1 (some 2) fresh fresh-IsIdle plain-valid fresh-up
      refl

send_complete_example :
    tc_event_handler hal os (send hal os false plain forever (some 1) (some 2) fresh).1
    ≡ record fresh { hw = (answer hal plain fresh).1; calls = tx_done 1 (some 2) ∷ [] }
send_complete_example =
    send_complete hal os os-laws false plain forever 1 (some 2) fresh fresh-IsIdle plain-valid
      fresh-up refl

-- The controller's frame is refused while the driver is stopped.
abbrev down : Dev Board
down = record fresh { drv = record fresh_data { started = false } }

down_err : (send hal os false plain forever (some 1) none down).0 ≡ err enetdown
unfolding send validate_send check_bus
down_err = refl

send-err_example :
    ((send hal os false plain forever (some 1) none down).1.drv ≡ down.drv)
    × ((send hal os false plain forever (some 1) none down).1.calls ≡ [])
send-err_example =
    send-err hal os os-laws false plain forever (some 1) none down enetdown
      (record {
        tx_sem = refl;
        tx_mutex = refl;
        tx_fin_sem = refl;
        callback = refl;
        argument = refl;
      })
      down_err

abbrev busy : Dev Board
busy = record fresh { drv = in_flight (some 1) (some 2) fresh_data }

abbrev two_frames : List Frame
two_frames = plain ∷ plain ∷ []

two_frames-valid : validate_all hal false fresh_data two_frames ≡ success
unfolding validate_all validate_tx_frame
two_frames-valid = refl

send_batch-sent_example :
    send_batch hal os false (some two_frames) forever (some 1) (some 2) fresh ≡ (
      success,
      record fresh {
        drv = in_flight (some 1) (some 2) fresh_data;
        hw = load_frames hal os two_frames fresh_board;
      },
    )
send_batch-sent_example =
    send_batch-sent hal os os-laws false two_frames forever 1 (some 2) fresh (omega arith)
      (omega arith) fresh-IsIdle two_frames-valid fresh-up refl

abbrev canfd_data : CanData
canfd_data = record fresh_data { config = record (fresh_data.config) { enable_canfd = true } }

abbrev esi_frame : Frame
esi_frame = record plain {
  flags = record { ide = false; rtr = false; fdf = true; brs = false; esi = true };
}

validate_all-AllValid_example :
    (validate_all hal false fresh_data two_frames ≡ success)
    ↔ AllValid hal false fresh_data two_frames
validate_all-AllValid_example = validate_all-AllValid hal false fresh_data two_frames
