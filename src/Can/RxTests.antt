-- ===== src/Can/RxTests.antt =====
-- Runs of the receive, interrupt and control calls of drivers/can/can_hpmicro.c on the simulated
-- board, and the instances of their theorems.
use hpm_support.Prelude.{◌++◌, ◌≡◌, refl, true, false, none, some, [], ◌∷◌, arith}
use hpm_support.Can.Types.{RxBuf, TxBuf, Frame, CanFilter, Dev, Mode, Timing, TxRxFlags}
use hpm_support.Can.Filter.{add_rx_filter}
use hpm_support.Can.Isr.{finish_isr, no_event, isr}
use hpm_support.Can.Isr.Drain
use hpm_support.Can.Isr.Drain.{Keeps, isr-total}
use hpm_support.Can.Board.{Board, hal, os, rx_queue, fresh, fresh_data, fresh_board, empty_buf}

abbrev plain : Frame
plain = record {
  id = 0x25;
  dlc = 2;
  flags = record { ide = false; rtr = false; fdf = false; brs = false; esi = false };
  payload = 7 ∷ 9 ∷ [];
}

-- A bus that pads the data with zeros.
abbrev carried : TxBuf → RxBuf
carried t = record {
  id = t.id;
  dlc = t.dlc;
  extend_id = t.extend_id;
  remote_frame = t.remote_frame;
  canfd_frame = t.canfd_frame;
  bitrate_switch = t.bitrate_switch;
  payload = t.payload ++ (0 ∷ []);
}

abbrev five_filter : CanFilter
five_filter = record { id = 5; mask = 7; ide = false; rtr = false; others = false }

abbrev remote_filter : CanFilter
remote_filter = record { id = 5; mask = 7; ide = true; rtr = true; others = false }

abbrev first_added : Dev Board
first_added = (add_rx_filter hal os (some 100) (some 9) five_filter fresh).1

-- The filter for 5, and one that was added behind it.
abbrev listening : Dev Board
listening = (add_rx_filter hal os (some 200) none remote_filter first_added).1

abbrev message : RxBuf
message = record empty_buf { id = 0x25; dlc = 2; payload = 7 ∷ 9 ∷ [] }

abbrev received : Dev Board
received = record listening { hw = record fresh_board { queue = message ∷ [] } }

abbrev events : TxRxFlags
events = record no_event { receive = true }

abbrev raised : Dev Board
raised = record listening {
  hw = record fresh_board { queue = message ∷ message ∷ []; events = events };
}

rx_queue-Keeps : Keeps hal rx_queue
rx_queue-Keeps = record { clear_lem = λ e hw. refl; clear_error_lem = λ e hw. refl }

-- Two messages are handled, and none is left.
isr-total_example :
    (d' : Dev Board) × (isr hal os 3 raised ≡ some d')
    × (d' ≡ finish_isr hal os events raised.hw.errors (Drain.received hal rx_queue os raised))
    × (rx_queue.pending d'.hw ≡ 0)
isr-total_example = isr-total hal rx_queue os rx_queue-Keeps 3 raised (omega arith)

abbrev fd_mode : Mode
fd_mode = record { loopback = false; listenonly = false; fd = true; others = 0 }

abbrev classic_mode : Mode
classic_mode = record { loopback = true; listenonly = false; fd = false; others = 0 }

abbrev timing : Timing
timing = record { prescaler = 1; prop_seg = 1; phase_seg1 = 60; phase_seg2 = 18 }

abbrev fd_on : Dev Board
fd_on = record fresh {
  drv = record fresh_data {
    started = false;
    config = record (fresh_data.config) { enable_canfd = true };
  };
}
