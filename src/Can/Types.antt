-- ===== src/Can/Types.antt =====
-- The data of drivers/can/can_hpmicro.c: frames, filters, the driver's `struct hpm_can_data`, and the
-- structures of the vendor's CAN library that it fills in. A flag word whose bits the driver only
-- tests and sets by name is a record of Booleans, one to a flag.
use hpm_support.Prelude.{ℕ, Bool, Option, List}
use hpm_support.Zephyr.{Sem, Mutex}

-- `CAN_FRAME_*` of `struct can_frame`
pub record FrameFlags : Type 0 where
  pub ide : Bool
  pub rtr : Bool
  pub fdf : Bool
  pub brs : Bool
  pub esi : Bool

-- `struct can_frame`
pub record Frame : Type 0 where
  pub id : ℕ
  pub dlc : ℕ
  pub flags : FrameFlags
  pub payload : List ℕ

-- `can_receive_buf_t`
pub record RxBuf : Type 0 where
  pub id : ℕ
  pub dlc : ℕ
  pub extend_id : Bool
  pub remote_frame : Bool
  pub canfd_frame : Bool
  pub bitrate_switch : Bool
  pub payload : List ℕ

-- `can_transmit_buf_t`
pub record TxBuf : Type 0 where
  pub id : ℕ
  pub dlc : ℕ
  pub bitrate_switch : Bool
  pub remote_frame : Bool
  pub canfd_frame : Bool
  pub extend_id : Bool
  pub payload : List ℕ

-- `can_filter_id_mode_*`
pub data IdMode : Type 0 where
  standard extended : IdMode

-- `can_filter_config_t`
pub record FilterConfig : Type 0 where
  pub index : ℕ
  pub id_mode : IdMode
  pub enable : Bool
  pub code : ℕ
  pub mask : ℕ

-- `struct can_filter`: of its flags the drivers read `CAN_FILTER_IDE` and `CAN_FRAME_RTR` and,
-- together, whether any of the others is set.
pub record CanFilter : Type 0 where
  pub id : ℕ
  pub mask : ℕ
  pub ide : Bool
  pub rtr : Bool
  pub others : Bool

-- The node modes of the controller that the driver sets.
pub data NodeMode : Type 0 where
  normal loopback_internal listen_only : NodeMode

-- `can_mode_t`: the flags that the driver tests, and the others.
pub record Mode : Type 0 where
  pub loopback : Bool
  pub listenonly : Bool
  pub fd : Bool
  pub others : ℕ

-- `CAN_EVENT_*`
pub record TxRxFlags : Type 0 where
  pub receive : Bool
  pub tx_primary_buf : Bool
  pub tx_secondary_buf : Bool
  pub error : Bool

-- The error interrupt flags: the two that the driver tests, and whether any other is set.
pub record ErrorFlags : Type 0 where
  pub warning_limit : Bool
  pub passive_mode_active : Bool
  pub others : Bool

-- `CAN_ERROR_*_INT_ENABLE`, the error interrupts that the driver turns on.
pub record ErrorMask : Type 0 where
  pub bus_error : Bool
  pub arbitration_lost : Bool
  pub passive : Bool

-- `can_config_t`. Its `filter_list` is left out: the driver points it at its own `filter_list`
-- before each use, so `Hal.init` is given that list.
pub record Config : Type 0 where
  pub mode : NodeMode
  pub enable_canfd : Bool
  pub baudrate : ℕ
  pub baudrate_fd : ℕ
  pub filter_list_num : ℕ
  pub irq_txrx_enable_mask : TxRxFlags
  pub irq_error_enable_mask : ErrorMask

-- `enum can_state`
pub data CanState : Type 0 where
  error_active error_warning error_passive bus_off stopped : CanState

-- `struct can_bus_err_cnt`
pub record ErrCnt : Type 0 where
  pub tx_err_cnt : ℕ
  pub rx_err_cnt : ℕ

-- `struct can_timing`
pub record Timing : Type 0 where
  pub prescaler : ℕ
  pub prop_seg : ℕ
  pub phase_seg1 : ℕ
  pub phase_seg2 : ℕ

-- A pointer to a function or to user data; `none` is NULL.
abbrev pub Pointer : Type 0
Pointer = Option ℕ

-- `struct hpm_can_data`. Its arrays of one element are that element.
pub record CanData : Type 0 where
  pub mode : Mode
  pub config : Config
  pub can_filter_count : ℕ
  pub filter_list : List FilterConfig
  pub filter_rtr : ℕ
  pub filter_rtr_mask : ℕ
  pub inst_mutex : Mutex
  pub tx_mutex : Mutex
  pub tx_sem : Sem
  pub tx_fin_sem : Sem
  pub tx_fin_cb : Pointer
  pub tx_fin_cb_arg : Pointer
  pub rx_cb : List Pointer
  pub rx_cb_arg : List Pointer
  pub state_change_cb : Pointer
  pub state_change_cb_data : Pointer
  pub started : Bool

-- A call of a user's function, by the function's address, with what it is given.
pub data Call : Type 0 where
  rx_done : ℕ → Frame → Pointer → Call
  tx_done : ℕ → Pointer → Call
  state_changed : ℕ → CanState → ErrCnt → Pointer → Call

-- The device: the driver's data, the controller behind its registers, and the calls of user
-- functions made so far, the latest first.
pub record Dev (Hw : Type 0) : Type 0 where
  pub drv : CanData
  pub hw : Hw
  pub calls : List Call
